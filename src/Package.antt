-- ===== src/Package.antt =====
-- apk-tools/src/package.c and apk_package.h: names of package files, dependencies, the fields of a
-- package and the checks of its signature.
mod Tests
pub mod Filename
pub mod Dependency
pub mod Signature
pub mod Info
