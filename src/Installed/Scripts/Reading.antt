-- ===== src/Installed/Scripts/Reading.antt =====
-- About the archive of scripts of apk-tools/src/database.c: what is written is read back.
use am_linux_terminal_robot.Common.{
  ℕ, suc, ◌<◌, ◌≡◌, sym, ap, ◌∙◌, Option, some, [], ◌∷◌, ◌++◌, append_assoc, append-nil, ◌≢◌, Bytes,
  concat, length, All, All-append, arith,
}
use am_linux_terminal_robot.Blob.Scan.{c_string}
use am_linux_terminal_robot.Blob.Splitting.{Lacks}
use am_linux_terminal_robot.Blob.Push.{Out, b64_chunks}
use am_linux_terminal_robot.Blob.Plain.{IsPlain, no_dot, no_null, b64_chunks-IsPlain}
use am_linux_terminal_robot.Blob.Checksum.{Checksum, checksum_sha1, pull_csum}
use am_linux_terminal_robot.Blob.Checksums.{IsData, take_all, pull_sha1_back}
use am_linux_terminal_robot.Names.{Name, name_key}
use am_linux_terminal_robot.Names.Interning.{c_string-Lacks}
use am_linux_terminal_robot.Package.Dependency.{text_of}
use am_linux_terminal_robot.Installed.Scripts.{
  script_filename, script_of, script_name, with_csum, with_type,
}
use am_linux_terminal_robot.Installed.Scripts.FileNames.{
  script_name_parts, script_filename_lem, written_of, c_string_plain, text_of_plain, type-IsPlain,
  script_type-name, type_name, pieces,
}

reassociated :
    (a v b t z : Bytes)
    → a ++ b'-' ∷ (v ++ b'.' ∷ b'Q' ∷ b'1' ∷ (b ++ b'.' ∷ (t ++ z)))
      ≡ (((a ++ b'-' ∷ v) ++ b'.' ∷ b'Q' ∷ b'1' ∷ b) ++ b'.' ∷ t) ++ z
reassociated a v b t z = sym (
    append_assoc ((a ++ b'-' ∷ v) ++ b'.' ∷ b'Q' ∷ b'1' ∷ b) (b'.' ∷ t) z
    ∙ append_assoc (a ++ b'-' ∷ v) (b'.' ∷ b'Q' ∷ b'1' ∷ b) (b'.' ∷ (t ++ z))
    ∙ append_assoc a (b'-' ∷ v) _)

pulled :
    (c : Checksum) → c.type ≡ checksum_sha1 → c ≡ record { data_bytes = c.data_bytes; type = 20 }
pulled c e = ap (λ t. record { data_bytes = c.data_bytes; type = t }) e

module _ (name : Name) (version : Option Bytes) (csum : Checksum) (type : ℕ) (l : type < 7)
    (h : csum.type ≡ checksum_sha1) (d : IsData csum) where
  abbrev owner : Bytes
  owner = name_key name ++ b'-' ∷ text_of version

  abbrev sum_text : Bytes
  sum_text = b64_chunks csum.data_bytes 20

  abbrev full_name : Bytes
  full_name = (owner ++ b'.' ∷ b'Q' ∷ b'1' ∷ sum_text) ++ b'.' ∷ type_name type

  sum-IsPlain : All IsPlain sum_text
  sum-IsPlain = b64_chunks-IsPlain csum.data_bytes 20 d.all_bytes (omega arith)

  pieces_text : concat (pieces name version csum type) ≡ full_name ++ 0 ∷ []
  unfolding concat
  pieces_text =
      rw (h, take_all 20 csum.data_bytes d.size)
        (reassociated (name_key name) (text_of version) sum_text (type_name type) (0 ∷ []))

  full_name-Lacks : Lacks 0 full_name
  full_name-Lacks =
      All-append (λ c. c ≢ 0) (owner ++ b'.' ∷ b'Q' ∷ b'1' ∷ sum_text) (b'.' ∷ type_name type)
        (All-append (λ c. c ≢ 0) owner (b'.' ∷ b'Q' ∷ b'1' ∷ sum_text)
          (All-append (λ c. c ≢ 0) (name_key name) (b'-' ∷ text_of version)
            (c_string_plain name.name) (other, text_of_plain version))
          (other, (other, (other, no_null sum_text sum-IsPlain))))
        (other, no_null (type_name type) (type-IsPlain type l))
    where
      other : {n : ℕ} → suc n ≢ 0
      other {n} e = absurd (omega (arith, e))

  letters : IsPlain b'Q'
  letters = (
    λ e. absurd (ground (arith, e)),
    λ e. absurd (ground (arith, e)),
    λ e. absurd (ground (arith, e)),
  )

  letters1 : IsPlain b'1'
  letters1 = (
    λ e. absurd (ground (arith, e)),
    λ e. absurd (ground (arith, e)),
    λ e. absurd (ground (arith, e)),
  )

  full_name_read :
      (old : Checksum)
      → length old.data_bytes ≡ 20
      → script_name full_name old ≡ script_of type csum
  full_name_read old e =
      script_name_parts old owner (type_name type) (b'1' ∷ sum_text) b'Q'
        (no_dot (type_name type) (type-IsPlain type l))
        (no_dot (b'Q' ∷ b'1' ∷ sum_text) (letters, (letters1, sum-IsPlain)))
      ∙ ap (with_type old (b'Q' ∷ b'1' ∷ sum_text)) (script_type-name type l)
      ∙ ap (λ s. with_csum type (pull_csum (some s) old))
          (sym (append-nil (b'Q' ∷ b'1' ∷ sum_text)))
      ∙ ap (with_csum type) (pull_sha1_back csum.data_bytes [] old d.all_bytes d.size e)
      ∙ ap (script_of type) (sym (pulled csum h))

-- The name that apk_db_scriptdb_write gives to a script is read by apk_read_script_archive_entry as
-- the script's type and its package's checksum, if that is a SHA-1 checksum and the name fits into
-- the buffer.
pub script_name-script_filename :
    (name : Name) (version : Option Bytes) (csum old : Checksum) (type : ℕ) (o : Out)
    → type < 7
    → csum.type ≡ checksum_sha1
    → IsData csum
    → length old.data_bytes ≡ 20
    → script_filename name version csum type ≡ some o
    → script_name (c_string o.written) old ≡ script_of type csum
script_name-script_filename name version csum old type o l h d e q =
    ap (λ s. script_name (c_string s) old)
      (written_of _ o (sym (script_filename_lem name version csum type h) ∙ q)
        ∙ pieces_text name version csum type l h d)
    ∙ ap (λ s. script_name s old)
        (c_string-Lacks (full_name name version csum type l h d) []
          (full_name-Lacks name version csum type l h d))
    ∙ full_name_read name version csum type l h d old e
