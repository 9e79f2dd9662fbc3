-- ===== src/Contracts.antt =====
-- packages/agent-contracts: the data that the agent and its model gateways exchange, and the
-- validation of a model request.
pub mod Value
pub mod Json
pub mod Validation
pub mod Events
