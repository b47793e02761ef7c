-- ===== src/Installed/Tests.antt =====
-- The theorems about what is kept on installed packages, at concrete values.
use am_linux_terminal_robot.Common.{
  ℕ, ◌-◌, ◌<◌, ◌≡◌, ◌≢◌, refl, true, Option, none, some, List, [], ◌∷◌, ◌++◌, Bytes, codes,
  bytes_eq, length, take, drop, arith, ℤ, pos,
}
use am_linux_terminal_robot.Blob.Scan.{c_string, compare, memcmp}
use am_linux_terminal_robot.Blob.Push.{Out, push_blob, push_base64, b64_chunks, push_b64_chunk}
use am_linux_terminal_robot.Blob.Checksum.{Checksum, csum_blob, push_csum}
use am_linux_terminal_robot.Blob.Checksums.{IsData}
use am_linux_terminal_robot.Files.{pkg_info_ops, csum_hash, word}
use am_linux_terminal_robot.Hash.{Hash, get, get_hashed, find, is_match}
use am_linux_terminal_robot.Names.{Name}
use am_linux_terminal_robot.Io.Input.Full.{IsFull}
use am_linux_terminal_robot.Io.Lines.{mmap_read, from_file}
use am_linux_terminal_robot.Installed.Scripts.{
  Script, ScriptDb, script_filename, read_script_archive_entry,
}
use am_linux_terminal_robot.Installed.Scripts.Attached.{
  HasScript, scripts_of, read_script-script_filename,
}
use am_linux_terminal_robot.Installed.Triggers.{
  TriggerDb, triggers_of, triggers_read, triggers_write,
}
use am_linux_terminal_robot.Installed.Triggers.Lines.{IsTrigger}
use am_linux_terminal_robot.Installed.Triggers.Whole.{Entry, Restored}
use am_linux_terminal_robot.Installed.Triggers.Writing.{triggers_read-triggers_write}

abbrev twenty : ℕ → Bytes
twenty c =
    c ∷ 2 ∷ 3 ∷ 4 ∷ 5 ∷ 6 ∷ 7 ∷ 8 ∷ 9 ∷ 10 ∷ 11 ∷ 12 ∷ 13 ∷ 14 ∷ 15 ∷ 16 ∷ 17 ∷ 18 ∷ 19 ∷ 255 ∷ []

abbrev sum : ℕ → Checksum
sum c = record { data_bytes = twenty c; type = 20 }

sum-IsData : (c : ℕ) → c < 256 → IsData (sum c)
sum-IsData c l = record { size = refl; all_bytes = (l, ground arith) }

abbrev busybox : Name
busybox = record { name = codes "busybox"; id = 0 }

abbrev filename : Option Out
filename = script_filename busybox (some (codes "1.20.2-r3")) (sum 1) 5

abbrev filename_text : Bytes
filename_text = codes "busybox-1.20.2-r3.Q1AQIDBAUGBwgJCgsMDQ4PEBESE/8=.post-upgrade" ++ 0 ∷ []

filename_lem :
    filename ≡ some (record { written = filename_text; room = 256 - length filename_text })
unfolding script_filename push_blob push_csum push_base64 c_string b64_chunks push_b64_chunk
filename_lem = refl

-- A table of two packages, of one bucket.
abbrev table : Hash Checksum
table = record { buckets = (sum 1 ∷ sum 2 ∷ []) ∷ []; num_items = 2 }

first_found : get pkg_info_ops table (csum_blob (sum 1)) ≡ some (sum 1)
unfolding get get_hashed find is_match csum_hash word compare memcmp
first_found = refl

second_found : get pkg_info_ops table (csum_blob (sum 2)) ≡ some (sum 2)
unfolding get get_hashed find is_match csum_hash word compare memcmp
second_found = refl

-- A stream that holds some bytes.
abbrev read_bytes : Bytes → ℕ → Bytes × ℤ × Bytes
read_bytes s size = (drop size s, pos (length (take size s)), take size s)

read_bytes-IsFull : IsFull read_bytes (λ s. s)
read_bytes-IsFull s size = record { result = refl; stored = refl; left = refl }

abbrev no_scripts : List (Option Script)
no_scripts = none ∷ none ∷ none ∷ none ∷ none ∷ none ∷ none ∷ []

abbrev scripts_db : ScriptDb
scripts_db = record { packages = table; installed = (twenty 1, no_scripts) ∷ [] }

read_script-script_filename_example :
    HasScript read_bytes
      (λ s. s)
      read_bytes-IsFull
      (read_script_archive_entry read_bytes scripts_db true
        (c_string filename_text)
        9
        (codes "#!/bin/sh")
        (sum 9))
      (csum_blob (sum 1))
      5
      (record { stored = take 9 (codes "#!/bin/sh"); len = 9 })
read_script-script_filename_example =
    read_script-script_filename read_bytes (λ s. s) read_bytes-IsFull scripts_db (codes "#!/bin/sh")
      busybox (some (codes "1.20.2-r3")) (sum 1) (sum 9) (sum 1) 5 9
      (record { written = filename_text; room = 256 - length filename_text }) no_scripts
      (omega arith) refl (sum-IsData 1 (omega arith)) refl filename_lem first_found
      (unfold scripts_of bytes_eq in refl) refl

abbrev triggers_db : TriggerDb
triggers_db = record {
  packages = table;
  installed = (twenty 1, []) ∷ (twenty 2, []) ∷ [];
  listed = [];
}

abbrev entries : List Entry
entries = (sum 1, codes "/bin" ∷ codes "/sbin" ∷ []) ∷ (sum 2, codes "/usr/lib" ∷ []) ∷ []

abbrev append_bytes : Bytes → Bytes → Bytes × ℤ
append_bytes s b = (s ++ b, pos (length b))

slash-IsTrigger : IsTrigger (codes "/bin")
slash-IsTrigger =
    unfold c_string in
    record { some_byte = omega arith; no_blank = ground arith; on_line = ground arith }

sbin-IsTrigger : IsTrigger (codes "/sbin")
sbin-IsTrigger =
    unfold c_string in
    record { some_byte = omega arith; no_blank = ground arith; on_line = ground arith }

lib-IsTrigger : IsTrigger (codes "/usr/lib")
lib-IsTrigger =
    unfold c_string in
    record { some_byte = omega arith; no_blank = ground arith; on_line = ground arith }

apart : twenty 2 ≢ twenty 1
apart e = cc e

triggers_read-triggers_write_example : Restored triggers_db entries (
    triggers_read mmap_read 4
      (from_file (triggers_write append_bytes entries []))
      triggers_db
      (sum 9))
triggers_read-triggers_write_example =
    triggers_read-triggers_write append_bytes (λ s. s) (λ s b. refl) triggers_db entries [] 4
      (sum 9) refl
      (
        record {
          sha1 = refl;
          all_bytes = sum-IsData 1 (omega arith);
          all_triggers = (slash-IsTrigger, (sbin-IsTrigger, tt));
          found = first_found;
        },
        (
          record {
            sha1 = refl;
            all_bytes = sum-IsData 2 (omega arith);
            all_triggers = (lib-IsTrigger, tt);
            found = second_found;
          },
          tt,
        ),
      )
      (unfold triggers_of bytes_eq in (refl, (refl, tt))) ((apart, tt), (tt, tt)) refl (omega arith)
