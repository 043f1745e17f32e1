-- ===== src/Router.antt =====
-- The session router (src/daemon/session-router.ts). A promise chain is a numbered task: `mutate`
-- and `persist` give out the numbers in the order of their calls.
pub mod Lanes
mod Invariant
mod Order
mod Progress
mod Examples
