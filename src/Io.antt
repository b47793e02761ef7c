-- ===== src/Io.antt =====
-- apk-tools/src/io.c: the streams that read from a descriptor, copies to one, the streams that read
-- tokens, the streams that write to a descriptor, and the cache of user and group ids.
pub mod Input
pub mod Splice
pub mod Lines
pub mod Output
pub mod Ids
mod Tests
