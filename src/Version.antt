-- ===== src/Version.antt =====
-- apk-tools/src/version.c: the tokens of a version string and the comparison of two versions.
mod Tests
pub mod Token
pub mod Compare
pub mod Termination
pub mod Order
pub mod Operators
