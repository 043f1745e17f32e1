-- ===== src/Registry.antt =====
-- The session registry (src/daemon/session-registry.ts) and its limits (src/daemon/limits.ts).
-- A Map is a list of entries with one entry for a key, and a Set a list without duplicates: the
-- order of either is observed by no operation. A reservation object is a value, and releasing it
-- returns it with its mark changed.
pub mod Maps
pub mod Limits
pub mod State
pub mod Slots
pub mod Released
pub mod Waits
pub mod Input
pub mod MapLaws
pub mod InputAccounts
pub mod Totals
pub mod WaitAccounts
pub mod Examples
