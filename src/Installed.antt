-- ===== src/Installed.antt =====
-- apk-tools/src/database.c: what is kept on installed packages.
pub mod Scripts
pub mod Triggers
mod Tests
