-- ===== src/Worker.antt =====
-- The client of the native worker (src/daemon/worker-client.ts): the redaction of what it prints.
pub mod Redact
mod Cut
mod Places
mod Stream
mod Examples
