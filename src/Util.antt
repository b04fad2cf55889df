-- ===== src/Util.antt =====
-- tornado/util: files and their locks (file.h) and guards of a scope (scople_guard.h).
pub mod Files
pub mod Guards
pub mod Randoms
pub mod Clock
pub mod Config
mod Tests
