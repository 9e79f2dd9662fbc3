-- ===== src/Adapters.antt =====
-- The provider adapters of packages/model-gateway/src/adapters: from the bytes of a response to the
-- events of the contract.
pub mod Sse
pub mod Decoding
pub mod Steps
pub mod Indexed
pub mod DecodeUtils
pub mod Anthropic
pub mod OpenAi
pub mod Requests
