-- ===== src/Journal.antt =====
-- The output journal of a session (src/daemon/storage.ts, lines 809 to 915, 1703 to 1761 and 1802
-- to 1812; src/daemon/journal-reader.ts): segments on disk, their retention, and pages of lines.
-- The directory of a session is the list of its segment files in the order of their names, which
-- is the order of the start sequences, printed with 20 digits.
pub mod Bytes
pub mod Segments
pub mod Append
pub mod AppendRun
pub mod Retain
pub mod Trim
pub mod Lines
pub mod Located
pub mod LineCount
pub mod Paging
pub mod Reconcile
pub mod Reconciled
mod Examples
