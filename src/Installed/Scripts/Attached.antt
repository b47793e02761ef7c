-- ===== src/Installed/Scripts/Attached.antt =====
-- About the scripts that apk-tools/src/database.c reads from their archive, and which package gets
-- them.
use mathlib.Core.Option.{some-injective}
use am_linux_terminal_robot.Common.{
  ℕ, ◌<◌, ◌≡◌, refl, ap, ◌∙◌, true, false, Option, none, some, List, [], ◌∷◌, Bytes, bytes_eq,
  ==_refl, length, take, get_or, arith, Bool-cases, inl, inr, ℤ, pos, leb, ltb_ℤ, if◌then◌else◌,
}
use am_linux_terminal_robot.Blob.Scan.{c_string}
use am_linux_terminal_robot.Blob.Push.{Out}
use am_linux_terminal_robot.Blob.Checksum.{Checksum, checksum_sha1, csum_blob}
use am_linux_terminal_robot.Blob.Checksums.{IsData}
use am_linux_terminal_robot.Hash.{get, get_or-set}
use am_linux_terminal_robot.Names.{Name}
use am_linux_terminal_robot.Files.{pkg_info_ops}
use am_linux_terminal_robot.Io.Input.Full.{Gives, IsFull}
use am_linux_terminal_robot.Installed.Scripts.{
  Script, ScriptDb, script_filename, add_script, add_installed, attached, to_package,
  read_script_archive_entry, script_max,
}
use am_linux_terminal_robot.Installed.Scripts.Reading.{script_name-script_filename}

-- The scripts of an installed package.
unfoldable pub scripts_of :
    List (Bytes × List (Option Script)) → Bytes → Option (List (Option Script))
scripts_of [] key = none
scripts_of ((k, scripts) ∷ rest) key = if bytes_eq k key then some scripts else scripts_of rest key

abbrev pub script_at : List (Option Script) → ℕ → Option Script
script_at scripts type = get_or scripts type none

module _ {S : Type 0} (read : S → ℕ → S × ℤ × Bytes) where
  add_installed_lem :
      (installed : List (Bytes × List (Option Script))) (key : Bytes)
      (scripts : List (Option Script)) (is : S) (type size : ℕ)
      → scripts_of installed key ≡ some scripts
      → scripts_of (add_installed read installed key is type size).1 key
        ≡ some (add_script read scripts is type size).1
  unfolding scripts_of add_installed
  add_installed_lem [] key scripts is type size e = absurd (cc e)
  add_installed_lem ((k, own) ∷ rest) key scripts is type size e =
      elim (Bool-cases (bytes_eq k key)) [
        | inl q ↦ rw (q, some-injective own scripts (rw q at e)) (rw q refl)
        | inr q ↦ rw q (rw q (add_installed_lem rest key scripts is type size (rw q at e)))
      ]

  module _ (remaining : S → Bytes) (full : IsFull read remaining) where
    add_script_lem :
        (scripts : List (Option Script)) (is : S) (type size : ℕ)
        → type < script_max
        → length scripts ≡ script_max
        → script_at (add_script read scripts is type size).1 type
          ≡ some (record { stored = take size (remaining is); len = size })
    unfolding add_script
    add_script_lem scripts is type size l n =
        rw (below, g.result, no_error (length (take size (remaining is))), g.stored)
          (get_or-set scripts type type
              (some (record { stored = take size (remaining is); len = size })) none
              (omega (arith, l, n))
            ∙ rw (==_refl type) refl)
      where
        g : Gives read remaining is size size
        g = full is size

        below : leb script_max type ≡ false
        below = ground (arith, l)

        no_error : (k : ℕ) → ltb_ℤ (pos k) (pos 0) ≡ false
        no_error k = ground arith

    -- What the handler leaves: the package's scripts, with a new one.
    pub record HasScript (o : Option (S × ScriptDb × ℤ)) (key : Bytes) (type : ℕ) (script : Script)
        : Type 0 where
      pub to : S × ScriptDb
      pub returns : o ≡ some (to.0, to.1, pos 0)
      pub scripts : List (Option Script)
      pub of_package : scripts_of to.1.installed key ≡ some scripts
      pub attached_script : script_at scripts type ≡ some script

    -- A script that apk_db_scriptdb_write has named is attached by apk_read_script_archive_entry to
    -- the installed package that the table finds under its package's checksum, in the place of its
    -- type, over a stream whose reads give all that is asked for, but at the end, if the checksum is
    -- a SHA-1 checksum and the name fits into the buffer.
    pub read_script-script_filename :
        (db : ScriptDb) (is : S) (name : Name) (version : Option Bytes) (csum old pkg : Checksum)
        (type size : ℕ) (o : Out) (scripts : List (Option Script))
        → type < script_max
        → csum.type ≡ checksum_sha1
        → IsData csum
        → length old.data_bytes ≡ 20
        → script_filename name version csum type ≡ some o
        → get pkg_info_ops db.packages (csum_blob csum) ≡ some pkg
        → scripts_of db.installed (csum_blob pkg) ≡ some scripts
        → length scripts ≡ script_max
        → HasScript
            (read_script_archive_entry read db true (c_string o.written) size is old)
            (csum_blob pkg)
            type
            (record { stored = take size (remaining is); len = size })
    unfolding read_script_archive_entry
    read_script-script_filename db is name version csum old pkg type size o scripts l h d e q found
          mine n =
        record {
          to = to_package read db is type size (some pkg);
          returns =
              ap (attached read db is size)
                (script_name-script_filename name version csum old type o l h d e q)
              ∙ ap
                  (λ p. some (
                    (to_package read db is type size p).0,
                    (to_package read db is type size p).1,
                    pos 0,
                  ))
                  found;
          scripts = (add_script read scripts is type size).1;
          of_package = add_installed_lem db.installed (csum_blob pkg) scripts is type size mine;
          attached_script = add_script_lem scripts is type size l n;
        }
