-- ===== src/Rpc.antt =====
-- The RPC requests of the daemon (src/daemon/server.ts).
pub mod Result
pub mod Payload
pub mod Body
mod Received
pub mod Numbers
pub mod Owner
pub mod InputRate
mod RateBound
pub mod Spawn
pub mod Calls
pub mod Dispatch
mod Ensures
mod Authenticated
mod Permitted
mod Dispatched
mod Dispatches
pub mod Handle
mod Handled
mod Examples
