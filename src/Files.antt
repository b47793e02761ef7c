-- ===== src/Files.antt =====
-- apk-tools/src/database.c, lines 99 to 176 and 335 to 398: how packages, directories and files are
-- hashed and compared in the tables of the database.
pub mod Lookup
mod Tests
use am_linux_terminal_robot.Common.{
  ℕ, ◌+◌, ◌*◌, ◌++◌, List, Option, none, some, [], ◌∷◌, Bytes, ℤ, pos, eqb_ℤ, if◌then◌else◌, take,
  length, ◌%◌, ◌^◌,
}
use am_linux_terminal_robot.Blob.Scan.{hash, hash_seed, compare}
use am_linux_terminal_robot.Blob.Checksum.{Checksum, csum_blob}
use am_linux_terminal_robot.Hash.{HashOps, Hash, get, get_hashed, insert_hashed}

-- The `unsigned long` that stands in memory at the bytes, the lowest first.
unfoldable pub word : Bytes → ℕ
word [] = 0
word (c ∷ s) = c + 256 * word s

-- csum_hash, of a checksum with eight bytes at least
unfoldable pub csum_hash : Bytes → ℕ
csum_hash csum = word (take 8 csum)

-- pkg_info_hash_ops, over the checksums of packages
abbrev pub pkg_info_ops : HashOps Bytes Checksum
pkg_info_ops = record {
  get_key = csum_blob;
  hash_key = csum_hash;
  hash_item = none;
  compare = compare;
  compare_item = none;
}

-- struct apk_db_dir: the `namelen` bytes of its name, and its hash.
pub record Dir : Type 0 where
  pub name : Bytes
  pub hash : ℕ

-- dir_hash_ops
abbrev pub dir_ops : HashOps Bytes Dir
dir_ops = record {
  get_key = λ dir. dir.name;
  hash_key = hash;
  hash_item = none;
  compare = compare;
  compare_item = none;
}

-- struct apk_db_file: the `namelen` bytes of its name, and the directory behind `diri->dir`.
pub record File : Type 0 where
  pub name : Bytes
  pub dir : Dir

-- struct apk_db_file_hash_key
pub record FileKey : Type 0 where
  pub dirname : Bytes
  pub filename : Bytes

-- apk_db_file_hash_key
unfoldable pub file_hash_key : FileKey → ℕ
file_hash_key key = hash_seed key.filename (hash key.dirname)

-- apk_db_file_hash_item
unfoldable pub file_hash_item : File → ℕ
file_hash_item dbf = hash_seed dbf.name dbf.dir.hash

-- apk_db_file_compare_item
unfoldable pub file_compare_item : File → FileKey → ℤ
file_compare_item dbf key =
    if eqb_ℤ (compare key.filename dbf.name) (pos 0)
    then compare key.dirname dbf.dir.name
    else compare key.filename dbf.name

-- file_hash_ops. `get_key` and `compare` are null pointers there, and are never called, since
-- `hash_item` and `compare_item` are not.
abbrev pub file_ops : HashOps FileKey File
file_ops = record {
  get_key = λ dbf. record { dirname = dbf.dir.name; filename = dbf.name };
  hash_key = file_hash_key;
  hash_item = some file_hash_item;
  compare = λ a b. compare a.filename b.filename;
  compare_item = some file_compare_item;
}

-- apk_db_file_query
unfoldable pub file_query : Hash File → Bytes → Bytes → Option File
file_query files dir name = get file_ops files (record { dirname = dir; filename = name })

-- `db->installed.files` and `db->installed.stats.files`
pub record FileTable : Type 0 where
  pub files : Hash File
  pub count : ℕ

abbrev pub FileGot : Type 0
FileGot = FileTable × File × (List File × List File)

-- The bytes of a name that `namelen`, an unsigned short, counts.
abbrev pub counted_name : Bytes → Bytes
counted_name name = take (length name % 2 ^ 16) name

-- What follows the lookup in apk_db_file_get, with the hash `h` of the key.
abbrev pub got_file : FileTable → Dir → Bytes → List File × List File → ℕ → Option File → FileGot
got_file t dir name after h (some dbf) = (t, dbf, after)
got_file t dir name after h none =
    let file : File = record { name = counted_name name; dir = dir } in
    (
      record { files = insert_hashed file_ops t.files file h; count = t.count + 1 },
      file,
      (after.0 ++ file ∷ [], after.1),
    )

-- apk_db_file_get. The list of the directory's files stands before and behind the place `after`.
unfoldable pub file_get : FileTable → Dir → Bytes → List File × List File → FileGot
file_get t dir name after =
    let key : FileKey = record { dirname = dir.name; filename = name } in
    let h = hash_seed name dir.hash in
    got_file t dir name after h (get_hashed file_ops t.files key h)
