-- ===== src/Names.antt =====
-- apk-tools/src/database.c, lines 78 to 97 and 178 to 203: package names are interned in a hash
-- table. A pointer is modelled by the name with its id. Memory is taken to suffice: `calloc`
-- returns no null pointer.
pub mod Interning
mod Tests
use am_linux_terminal_robot.Common.{ℕ, ◌+◌, ◌%◌, ◌^◌, Option, none, some, Bytes}
use am_linux_terminal_robot.Blob.Scan.{c_string, cstr, hash, compare}
use am_linux_terminal_robot.Hash.{HashOps, Hash, init, get, get_hashed, insert_hashed}

-- struct apk_name, with the bytes allocated for `name` and without the packages of the name.
pub record Name : Type 0 where
  pub name : Bytes
  pub id : ℕ

-- pkg_name_get_key
abbrev pub name_key : Name → Bytes
name_key n = c_string n.name

-- pkg_name_hash_ops
abbrev pub name_ops : HashOps Bytes Name
name_ops = record {
  get_key = name_key;
  hash_key = hash;
  hash_item = none;
  compare = compare;
  compare_item = none;
}

-- `db->available.names` and `db->name_id`, which is unsigned and has 32 bits.
pub record NameTable : Type 0 where
  pub names : Hash Name
  pub name_id : ℕ

-- apk_db_query_name
unfoldable pub query_name : NameTable → Bytes → Option Name
query_name t name = get name_ops t.names name

-- apk_db_get_name
unfoldable pub get_name : NameTable → Bytes → NameTable × Name
get_name t name = elim (get_hashed name_ops t.names name (hash name)) [
  | some pn ↦ (t, pn)
  | none ↦
      (let pn : Name = record { name = cstr name; id = t.name_id } in
        (
          record {
            names = insert_hashed name_ops t.names pn (hash name);
            name_id = (t.name_id + 1) % 2 ^ 32;
          },
          pn,
        ))
]
