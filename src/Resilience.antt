-- ===== src/Resilience.antt =====
-- packages/model-gateway: the retry policy, one attempt against one provider, and the gateway that
-- retries and fails over.
pub mod Errors
pub mod Policy
pub mod Gateway
