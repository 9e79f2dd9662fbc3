-- ===== src/Runtime.antt =====
-- packages/agent-runtime: the bounded multi-turn agent loop and the tool policy.
pub mod Events
pub mod History
pub mod Calls
pub mod Options
pub mod Turn
pub mod Governed
pub mod Loop
