-- ===== src/Text.antt =====
-- The texts the plugin prints (src/plugin/pty/xml.ts).
pub mod Xml
pub mod Reading
mod Examples
