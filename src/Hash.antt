-- ===== src/Hash.antt =====
-- apk-tools/src/hash.c and apk_hash.h: a hash table of chains. An item stands for the object that
-- its `hlist` node lies in; a chain is the list of the items in its order.
mod Defs
mod Lookup
pub mod Interning
unfoldable pub use Defs.*
pub use Lookup.*
