-- ===== src/Permissions.antt =====
-- The permission policy of the plugin (src/plugin/pty/permissions.ts) and its wildcard patterns
-- (src/plugin/pty/wildcard.ts). The entries of an object are a list in the order of `Object.entries`.
pub mod Wildcard
pub mod Pattern
pub mod Policy
pub mod Evaluation
pub mod Authorize
pub mod Authority
mod Examples
