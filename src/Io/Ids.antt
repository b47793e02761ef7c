-- ===== src/Io/Ids.antt =====
-- apk-tools/src/io.c, lines 742 to 879: the ids of users and groups by name, with a cache. A pointer
-- to a cache item is modelled by its name with the place of its mutable fields in a list. The entries
-- that fgetpwent_r and fgetgrent_r deliver are arguments. Memory is taken to suffice.
pub mod Cached
pub mod Fresh
use am_linux_terminal_robot.Common.{
  ℕ, ◌+◌, ◌-◌, ◌%◌, ◌^◌, Bool, not, Option, none, some, List, [], ◌∷◌, ◌++◌, Bytes, bytes_eq, ◌==◌,
  if◌then◌else◌, length, take, get_or, set,
}
use am_linux_terminal_robot.Blob.Scan.{c_string, hash, compare}
use am_linux_terminal_robot.Hash.{HashOps, Hash, init, get_hashed, insert_hashed}

-- struct cache_item, without the fields that are assigned to after it has been made
pub record CacheItem : Type 0 where
  pub name : Bytes
  pub len : ℕ
  pub place : ℕ

-- The fields of struct cache_item that are assigned to.
pub record Fields : Type 0 where
  pub genid : ℕ
  pub id : ℕ

-- One of the two caches: the hash table, and the fields of its items.
pub record Cache : Type 0 where
  pub items : Hash CacheItem
  pub fields : List Fields

-- struct apk_id_cache, without the descriptor
pub record IdCache : Type 0 where
  pub genid : ℕ
  pub uid_cache : Cache
  pub gid_cache : Cache

-- cache_item_get_key
abbrev pub cache_item_get_key : CacheItem → Bytes
cache_item_get_key ci = take ci.len ci.name

-- id_hash_ops
abbrev pub id_hash_ops : HashOps Bytes CacheItem
id_hash_ops = record {
  get_key = cache_item_get_key;
  hash_key = hash;
  hash_item = none;
  compare = compare;
  compare_item = none;
}

-- An item made for a name, with its length in an unsigned short.
abbrev pub new_item : Bytes → ℕ → CacheItem
new_item name place = record { name = name; len = length name % 2 ^ 16; place = place }

-- resolve_cache_item, after the lookup
abbrev pub found_or_new : Cache → Bytes → Option CacheItem → Cache × CacheItem
found_or_new c name (some ci) = (c, ci)
found_or_new c name none =
    let ci : CacheItem = new_item name (length c.fields) in
    (
      record {
        items = insert_hashed id_hash_ops c.items ci (hash name);
        fields = c.fields ++ (record { genid = 0; id = 0 } ∷ []);
      },
      ci,
    )

-- resolve_cache_item
unfoldable pub resolve_cache_item : Cache → Bytes → Cache × CacheItem
resolve_cache_item c name = found_or_new c name (get_hashed id_hash_ops c.items name (hash name))

-- apk_id_cache_init
abbrev pub empty_cache : Cache
empty_cache = record { items = init CacheItem 256; fields = [] }

unfoldable pub id_cache_init : IdCache
id_cache_init = record { genid = 1; uid_cache = empty_cache; gid_cache = empty_cache }

-- apk_id_cache_reset
unfoldable pub id_cache_reset : IdCache → IdCache
id_cache_reset idc =
    let genid = (idc.genid + 1) % 2 ^ 32 in record idc { genid = if genid == 0 then 1 else genid }

-- `(uid_t) -1`
abbrev pub no_id : ℕ
no_id = 2 ^ 32 - 1

-- The loop over the entries, with the name and the id of each.
unfoldable pub scan : List (Bytes × ℕ) → Bytes → ℕ
scan [] name = no_id
scan ((pw_name, pw_uid) ∷ entries) name =
    let rest = scan entries name in
    if bytes_eq (c_string pw_name) (c_string name) then pw_uid else rest

-- The value that is assigned to the id of an item; the file is none where it cannot be opened.
abbrev pub scan_file : Option (List (Bytes × ℕ)) → Bytes → ℕ
scan_file none name = no_id
scan_file (some entries) name = scan entries name

abbrev pub no_fields : Fields
no_fields = record { genid = 0; id = 0 }

-- The item's id after it has been brought up to date.
abbrev pub refreshed : ℕ → Option (List (Bytes × ℕ)) → Bytes → Cache × CacheItem → Cache × ℕ
refreshed genid file name (c, ci) =
    if not ((get_or c.fields ci.place no_fields).genid == genid)
    then (
      record c {
        fields = set c.fields ci.place (record { genid = genid; id = scan_file file name });
      },
      scan_file file name,
    )
    else (c, (get_or c.fields ci.place no_fields).id)

abbrev pub or_default : ℕ → ℕ → ℕ
or_default id default_id = if not (id == no_id) then id else default_id

-- What apk_resolve_uid and apk_resolve_gid do with the cache of theirs.
unfoldable pub resolve : ℕ → Cache → Option (List (Bytes × ℕ)) → Bytes → ℕ → Cache × ℕ
resolve genid c file name default_id =
    let (c1, id) = refreshed genid file name (resolve_cache_item c (c_string name)) in
    (c1, or_default id default_id)

-- apk_resolve_uid
unfoldable pub resolve_uid : IdCache → Option (List (Bytes × ℕ)) → Bytes → ℕ → IdCache × ℕ
resolve_uid idc passwd username default_uid =
    let (c, uid) = resolve idc.genid idc.uid_cache passwd username default_uid in
    (record idc { uid_cache = c }, uid)

-- apk_resolve_gid
unfoldable pub resolve_gid : IdCache → Option (List (Bytes × ℕ)) → Bytes → ℕ → IdCache × ℕ
resolve_gid idc group groupname default_gid =
    let (c, gid) = resolve idc.genid idc.gid_cache group groupname default_gid in
    (record idc { gid_cache = c }, gid)
