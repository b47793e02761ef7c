-- ===== src/Installed/Scripts.antt =====
-- The scripts of installed packages in the archive that holds them: apk-tools/src/database.c, lines
-- 749 to 761 and 796 to 834, and apk-tools/src/package.c, lines 868 to 890.
pub mod FileNames
pub mod Reading
pub mod Attached
use am_linux_terminal_robot.Common.{
  ℕ, zero, suc, ◌+◌, ◌-◌, Bool, true, false, not, Option, none, some, List, [], ◌∷◌, ◌++◌, Bytes,
  codes, bytes_eq, if◌then◌else◌, leb, ltb, length, take, drop, get_or, get_elem?, set, ℤ, pos, neg,
  ltb_ℤ,
}
use am_linux_terminal_robot.Blob.Scan.{c_string, rsplit}
use am_linux_terminal_robot.Blob.Push.{Out, buffer, push_blob}
use am_linux_terminal_robot.Blob.Checksum.{Checksum, csum_blob, push_csum, PulledCsum, pull_csum}
use am_linux_terminal_robot.Names.{Name, name_key}
use am_linux_terminal_robot.Package.Dependency.{text_of}
use am_linux_terminal_robot.Package.Filename.{script_types, script_type}
use am_linux_terminal_robot.Files.{pkg_info_ops}
use am_linux_terminal_robot.Hash.{Hash, get}

-- The pushes of apk_db_scriptdb_write into `filename`, with the null byte at the end, for a script of
-- a type below APK_SCRIPT_MAX; none: one of them had no room, and the text has no end.
unfoldable pub script_filename : Name → Option Bytes → Checksum → ℕ → Option Out
script_filename name version csum type =
    let bfn1 = push_blob (push_blob (buffer 256) (name_key name)) (codes "-") in
    let bfn2 = push_blob (push_blob bfn1 (text_of version)) (codes ".") in
    let bfn3 = push_blob (push_csum bfn2 csum) (codes ".") in
    push_blob (push_blob bfn3 (get_or script_types type [])) (0 ∷ [])

-- What the name of an entry of the archive says. It is unreadable where the checksum is pulled from
-- bytes outside its blob.
pub data ScriptName : Type 0 where
  no_script unreadable : ScriptName
  script_of : ℕ → Checksum → ScriptName

abbrev pub with_csum : ℕ → PulledCsum → ScriptName
with_csum type none = unreadable
with_csum type (some (csum, rest)) = script_of type csum

-- `old` is what `csum` holds before.
abbrev pub with_type : Checksum → Bytes → Option ℕ → ScriptName
with_type old text none = no_script
with_type old text (some type) = with_csum type (pull_csum (some text) old)

-- Behind the second memrchr: the part before its place, of a name before `.action`.
abbrev pub with_package : Checksum → Bytes → Bytes → Option (Bytes × Bytes) → ScriptName
with_package old stem action none = no_script
with_package old stem action (some (owner, _)) =
    with_type old (drop (length owner + 1) stem) (script_type action)

-- Behind the first memrchr: the parts before and behind its place.
abbrev pub with_action : Checksum → Option (Bytes × Bytes) → ScriptName
with_action old none = no_script
with_action old (some ([], action)) = no_script
with_action old (some (c ∷ stem, action)) =
    with_package old (c ∷ stem) action (rsplit b'.' (take (length stem) (c ∷ stem)))

-- The text of a name in apk_read_script_archive_entry. memrchr is the cut at the last byte.
unfoldable pub script_name : Bytes → Checksum → ScriptName
script_name name old = with_action old (rsplit b'.' name)

-- `ipkg->script[type]`: the bytes that were read, and `len`.
pub record Script : Type 0 where
  pub stored : Bytes
  pub len : ℕ

-- The packages by their checksums, and the scripts of those that are installed, with the checksum
-- that they are found by in the table.
pub record ScriptDb : Type 0 where
  pub packages : Hash Checksum
  pub installed : List (Bytes × List (Option Script))

abbrev pub script_max : ℕ
script_max = 7

-- `read` is the one of the entry's stream.
module _ {S : Type 0} (read : S → ℕ → S × ℤ × Bytes) where
  abbrev pub added : List (Option Script) → ℕ → ℕ → S × ℤ × Bytes → S × List (Option Script) × ℤ
  added scripts type size (is, r, bytes) =
      if ltb_ℤ r (pos 0)
      then (is, scripts, r)
      else (is, set scripts type (some (record { stored = bytes; len = size })), pos 0)

  -- apk_ipkg_add_script, where memory suffices
  unfoldable pub add_script : List (Option Script) → S → ℕ → ℕ → S × List (Option Script) × ℤ
  add_script scripts is type size =
      if leb script_max type then (is, scripts, neg 1) else added scripts type size (read is size)

  -- apk_ipkg_add_script for the package with the key, if it is installed.
  unfoldable pub add_installed :
      List (Bytes × List (Option Script))
      → Bytes
      → S
      → ℕ
      → ℕ
      → S × List (Bytes × List (Option Script))
  add_installed [] key is type size = (is, [])
  add_installed ((k, scripts) ∷ rest) key is type size =
      let (is1, scripts1, _) = add_script scripts is type size in
      let (is2, rest2) = add_installed rest key is type size in
      if bytes_eq k key then (is1, (k, scripts1) ∷ rest) else (is2, (k, scripts) ∷ rest2)

  abbrev pub to_package : ScriptDb → S → ℕ → ℕ → Option Checksum → S × ScriptDb
  to_package db is type size none = (is, db)
  to_package db is type size (some pkg) =
      let (is1, installed) = add_installed db.installed (csum_blob pkg) is type size in
      (is1, record db { installed = installed })

  -- The entry's name has been taken apart. None: it is unreadable.
  abbrev pub attached : ScriptDb → S → ℕ → ScriptName → Option (S × ScriptDb × ℤ)
  attached db is size no_script = some (is, db, pos 0)
  attached db is size unreadable = none
  attached db is size (script_of type csum) =
      let (is1, db1) = to_package db is type size (get pkg_info_ops db.packages (csum_blob csum)) in
      some (is1, db1, pos 0)

  -- apk_read_script_archive_entry, for an entry of a name and a size
  unfoldable pub read_script_archive_entry :
      ScriptDb → Bool → Bytes → ℕ → S → Checksum → Option (S × ScriptDb × ℤ)
  read_script_archive_entry db is_regular name size is old =
      if not is_regular then some (is, db, pos 0) else attached db is size (script_name name old)
