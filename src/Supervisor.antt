-- ===== src/Supervisor.antt =====
-- The session supervisor (src/daemon/supervisor.ts).
pub mod Transition
pub mod Snapshot
pub mod Cleanup
pub mod Waits
pub mod Matching
pub mod Pending
mod Answered
mod Deleted
pub mod Finish
mod Reported
mod Proven
mod Finishes
mod WaitExamples
mod TransitionValidity
pub mod Reuse
mod Reused
mod Reuses
pub mod Examples
