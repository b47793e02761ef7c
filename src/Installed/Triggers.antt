-- ===== src/Installed/Triggers.antt =====
-- The triggers of installed packages in the file that holds them: apk-tools/src/database.c, lines 836
-- to 890. A package is modelled by its checksum, and an installed one is found by the bytes of that.
pub mod Lines
pub mod RoundTrip
pub mod Whole
pub mod Writing
use am_linux_terminal_robot.Common.{
  ℕ, zero, suc, Bool, true, false, ◌&&◌, not, Option, none, some, List, [], ◌∷◌, ◌++◌, Bytes,
  bytes_eq, if◌then◌else◌, ℤ, pos,
}
use am_linux_terminal_robot.Blob.Scan.{cstr, for_each_segment}
use am_linux_terminal_robot.Blob.Push.{Out, buffer, pushed}
use am_linux_terminal_robot.Blob.Pull.{pull_char}
use am_linux_terminal_robot.Blob.Checksum.{Checksum, csum_blob, push_csum, PulledCsum, pull_csum}
use am_linux_terminal_robot.Package.Info.{bytes_of}
use am_linux_terminal_robot.Files.{pkg_info_ops}
use am_linux_terminal_robot.Hash.{Hash, get}
use am_linux_terminal_robot.Io.Lines.{Token, Block, bytes, no_bytes}
use am_linux_terminal_robot.Io.Output.{write_string}

-- The packages by their checksums, the triggers of those that are installed, and the list
-- `db->installed.triggers`.
pub record TriggerDb : Type 0 where
  pub packages : Hash Checksum
  pub installed : List (Bytes × List Bytes)
  pub listed : List Bytes

-- The size of the buffer, APK_BLOB_CHECKSUM_BUF
abbrev pub csum_buffer : ℕ
csum_buffer = 34

-- `write` is the one of a stream; its result is not looked at.
module _ {S : Type 0} (write : S → Bytes → S × ℤ) where
  unfoldable pub write_triggers : List Bytes → S → S
  write_triggers [] os = os
  write_triggers (t ∷ triggers) os =
      write_triggers triggers (write_string write (write os (b' ' ∷ [])).0 t).0

  -- apk_db_triggers_write, over the checksums and the triggers of the listed packages
  unfoldable pub triggers_write : List (Checksum × List Bytes) → S → S
  triggers_write [] os = os
  triggers_write ((csum, triggers) ∷ pkgs) os =
      let bfn = pushed csum_buffer (push_csum (buffer csum_buffer) csum) in
      triggers_write pkgs
        (write (write_triggers triggers (write os (bytes_of bfn)).0) (b'\n' ∷ [])).0

-- parse_triggers
unfoldable pub parse_triggers : List Bytes → Bytes → List Bytes × ℤ
parse_triggers triggers [] = (triggers, pos 0)
parse_triggers triggers (c ∷ blob) = (triggers ++ cstr (c ∷ blob) ∷ [], pos 0)

-- `pkg->ipkg->triggers` of a package, none if it is not installed
unfoldable pub triggers_of : List (Bytes × List Bytes) → Bytes → Option (List Bytes)
triggers_of [] key = none
triggers_of ((k, triggers) ∷ rest) key =
    let others = triggers_of rest key in if bytes_eq k key then some triggers else others

unfoldable pub put_triggers :
    List (Bytes × List Bytes) → Bytes → List Bytes → List (Bytes × List Bytes)
put_triggers [] key triggers = []
put_triggers ((k, old) ∷ rest) key triggers =
    let others = put_triggers rest key triggers in
    if bytes_eq k key then (k, triggers) ∷ rest else (k, old) ∷ others

-- list_hashed, of a package
unfoldable pub is_listed : List Bytes → Bytes → Bool
is_listed [] key = false
is_listed (k ∷ keys) key =
    let others = is_listed keys key in if bytes_eq k key then true else others

abbrev has_some : List Bytes → Bool
has_some [] = false
has_some (t ∷ triggers) = true

-- The package's triggers are assigned, and it is listed if it has some.
unfoldable pub with_triggers : TriggerDb → Bytes → List Bytes → TriggerDb
with_triggers db key triggers = record db {
  installed = put_triggers db.installed key triggers;
  listed =
      if has_some triggers && not (is_listed db.listed key)
      then db.listed ++ key ∷ []
      else db.listed;
}

abbrev pub after_segments :
    TriggerDb → Checksum → Bytes → Option (List Bytes × ℤ) → Option (TriggerDb × Checksum)
after_segments db csum key none = none
after_segments db csum key (some (triggers, rc)) = some (with_triggers db key triggers, csum)

abbrev pub for_installed :
    TriggerDb
    → Checksum
    → Bytes
    → Option Bytes
    → Option (List Bytes)
    → Option (TriggerDb × Checksum)
for_installed db csum key rest none = some (db, csum)
for_installed db csum key rest (some triggers) =
    after_segments db csum key (for_each_segment parse_triggers b' ' [] triggers (bytes_of rest))

abbrev pub for_package :
    TriggerDb → Checksum → Option Bytes → Option Checksum → Option (TriggerDb × Checksum)
for_package db csum rest none = some (db, csum)
for_package db csum rest (some pkg) =
    for_installed db csum (csum_blob pkg) rest (triggers_of db.installed (csum_blob pkg))

abbrev pub after_csum : TriggerDb → PulledCsum → Option (TriggerDb × Checksum)
after_csum db none = none
after_csum db (some (csum, rest)) =
    for_package db csum (pull_char rest b' ') (get pkg_info_ops db.packages (csum_blob csum))

-- A round of apk_db_triggers_read, with what `csum` holds before and after it; none: the checksum is
-- pulled from bytes outside the line.
unfoldable pub read_line : TriggerDb → Checksum → Bytes → Option (TriggerDb × Checksum)
read_line db old l = after_csum db (pull_csum (some l) old)

-- `read` is the one of the stream.
module _ {B : Type 0} (read : B → Token → Option (B × Block)) where
  abbrev pub read_next :
      (TriggerDb → Checksum → Option (B × TriggerDb))
      → Option (TriggerDb × Checksum)
      → Option (B × TriggerDb)
  read_next next none = none
  read_next next (some (db, csum)) = next db csum

  abbrev pub read_block :
      (B → TriggerDb → Checksum → Option (B × TriggerDb))
      → TriggerDb
      → Checksum
      → Option (B × Block)
      → Option (B × TriggerDb)
  read_block next db old none = none
  read_block next db old (some (bs, no_bytes e)) = some (bs, db)
  read_block next db old (some (bs, bytes l)) = read_next (next bs) (read_line db old l)

  -- apk_db_triggers_read, with `fuel` reads at most
  unfoldable pub triggers_read : ℕ → B → TriggerDb → Checksum → Option (B × TriggerDb)
  triggers_read zero bs db old = none
  triggers_read (suc fuel) bs db old =
      read_block (triggers_read fuel) db old (read bs (some (b'\n', [])))
