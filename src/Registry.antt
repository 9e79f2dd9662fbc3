-- ===== src/Registry.antt =====
-- packages/provider-registry: providers, routes and their resolution.
pub mod Types
pub mod Names
pub mod Validation
pub mod Store
pub mod Credentials
