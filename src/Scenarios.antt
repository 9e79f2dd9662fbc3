-- ===== src/Scenarios.antt =====
-- Concrete runs of the parts.
mod Conversation
mod Routing
mod Streaming
mod Remembering
mod Reading
mod Encoding
mod Keeping
use agent_routebench.Prelude.{false}
use agent_routebench.Generator.{Signal}

abbrev pub quiet : Signal
quiet t = false
