-- ===== src/Approvals.antt =====
-- The approval ledger of the daemon (src/daemon/server.ts, lines 451 to 902): requests for the
-- approval of a command, the grants of a session, and the handlers that change them.
-- A handler reads the clock once, as `now`, in milliseconds. It runs alone, as the queue of
-- `withApprovals` has it, and the claim token that follows the queued part is set with it.
pub mod Ledger
pub mod Refresh
pub mod Intent
pub mod Queue
pub mod Create
pub mod Decide
pub mod Consume
pub mod Listing
pub mod Find
pub mod Calls
pub mod Keeps
pub mod Change
pub mod StepKeeps
pub mod Runs
pub mod Owned
pub mod Authority
pub mod Once
pub mod Token
pub mod Grants
pub mod GrantOrigin
pub mod Decided
pub mod Cleanup
mod Examples
