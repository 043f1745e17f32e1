-- ===== src/Lifecycle.antt =====
-- The lifecycle of a session (src/daemon/lifecycle.ts): the reducer, the flat view of a state, and
-- the state rebuilt from a flat view. The other children hold what is proved of them.
pub mod Reduce
pub mod Project
pub mod Refresh
pub mod Validity
pub mod Status
pub mod Runs
pub mod RefreshValidity
pub mod Roundtrip
pub mod Examples
