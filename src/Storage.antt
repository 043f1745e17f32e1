-- ===== src/Storage.antt =====
-- The daemon's persistent storage (src/daemon/storage.ts).
pub mod ValidState
