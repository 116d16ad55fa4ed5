-- ===== src/Cli.antt =====
-- The commands of the agent: what it may run, whom it asks first, and how it is run.
pub mod Payload
pub mod Policy
pub mod Intent
pub mod Exec
pub mod Resume
pub mod Stored
pub mod Scope
pub mod Approval
pub mod Retry
pub mod Hitl
pub mod Question
pub mod Ingress
pub mod Resumed
mod TestCodec
mod Tests
