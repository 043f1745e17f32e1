-- ===== src/Session.antt =====
-- The data that daemon, supervisor and storage share (src/daemon/types.ts): what is known of a
-- session's process, its lifecycle state, the flat view of the same facts, and the session record.
-- Strings and timestamps are opaque here. `a?: T` is `Option T`.
mod Evidence
mod State
mod Record
pub use Evidence.*
pub use State.*
pub use Record.*
