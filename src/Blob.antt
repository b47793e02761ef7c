-- ===== src/Blob.antt =====
-- apk-tools/src/blob.c and apk_blob.h: strings with a length. A blob is the list of its bytes, and
-- an `Option` of that where the code tests for APK_BLOB_NULL.
pub mod Scan
pub mod Push
pub mod Pull
pub mod Checksum
pub mod Splitting
pub mod Pieces
pub mod Segments
pub mod Buffer
pub mod Numbers
pub mod Hex
pub mod Plain
pub mod Base64
pub mod Checksums
mod Tests
pub mod Order
