-- ===== src/Memory.antt =====
-- packages/agent-memory/src: what an agent remembers between its conversations.
pub mod Store
pub mod Search
pub mod Context
