-- ===== src/Environment.antt =====
-- The environment of a session's process (src/daemon/supervisor.ts).
pub mod Keys
pub mod Runtime
mod Trusted
mod Examples
