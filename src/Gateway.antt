-- ===== src/Gateway.antt =====
-- internal/runtime/gateway.go: the lifecycle of the gateway.
pub mod Task
pub mod Scheduler
pub mod Control
pub mod Confirmation
pub mod Coherence
pub mod Enrollment
pub mod OpenClaw
mod Examples
