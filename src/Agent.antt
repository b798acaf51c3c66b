-- ===== src/Agent.antt =====
-- internal/manageragent: the built-in agent.
pub mod Message
pub mod Session
pub mod Turn
pub mod Rounds
pub mod Engine
mod Examples
