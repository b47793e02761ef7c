-- ===== src/Installed/Triggers/Writing.antt =====
-- About apk_db_triggers_write of apk-tools/src/database.c, and the file that it writes.
use am_linux_terminal_robot.Common.{
  ℕ, ◌+◌, ◌≤◌, ◌≡◌, sym, ap, ◌∙◌, some, List, [], ◌∷◌, ◌++◌, append_assoc, append-nil, Bytes, codes,
  concat, length, All, arith, Bool-cases, inl, inr, ℤ, pos, eqb_ℤ,
}
use am_linux_terminal_robot.Blob.Scan.{c_string}
use am_linux_terminal_robot.Blob.Push.{buffer, push_blob, pushed, b64_chunks}
use am_linux_terminal_robot.Blob.Buffer.{length-b64_chunks}
use am_linux_terminal_robot.Blob.Pieces.{push_all, push_all-concat, csum_pushes}
use am_linux_terminal_robot.Blob.Checksum.{Checksum, checksum_sha1, csum_blob, push_csum}
use am_linux_terminal_robot.Blob.Checksums.{IsData, take_all}
use am_linux_terminal_robot.Io.Lines.{from_file, mmap_read}
use am_linux_terminal_robot.Io.Lines.Cuts.{text}
use am_linux_terminal_robot.Io.Output.{write_string}
use am_linux_terminal_robot.Installed.Triggers.{
  TriggerDb, csum_buffer, write_triggers, triggers_write, triggers_read,
}
use am_linux_terminal_robot.Installed.Triggers.Lines.{spaced, sum_text, line_of}
use am_linux_terminal_robot.Installed.Triggers.Whole.{
  Entry, IsPackage, HasNone, AreApart, lines, Restored, read_lines,
}

fits_34 :
    (s : Bytes) → length s ≡ 30 → pushed csum_buffer (push_blob (buffer csum_buffer) s) ≡ some s
unfolding pushed push_blob
fits_34 s e = ground (arith, e)

csum_text :
    (c : Checksum)
    → c.type ≡ checksum_sha1
    → IsData c
    → concat (codes "Q1" ∷ b64_chunks (csum_blob c) checksum_sha1 ∷ []) ≡ sum_text c
unfolding concat
csum_text c h d =
    rw (h, take_all 20 c.data_bytes d.size)
      (ap (λ t. b'Q' ∷ b'1' ∷ t) (append-nil (b64_chunks c.data_bytes 20)))

pushed_sum :
    (c : Checksum)
    → c.type ≡ checksum_sha1
    → IsData c
    → pushed csum_buffer (push_csum (buffer csum_buffer) c) ≡ some (sum_text c)
unfolding push_all
pushed_sum c h d =
    ap (pushed csum_buffer) (
      csum_pushes (buffer csum_buffer) c h
      ∙ push_all-concat (buffer csum_buffer)
          (codes "Q1" ∷ b64_chunks (csum_blob c) checksum_sha1 ∷ [])
      ∙ ap (push_blob (buffer csum_buffer)) (csum_text c h d))
    ∙ fits_34 (sum_text c) (ground (arith, length-b64_chunks c.data_bytes 20, d.size))

module _ {S : Type 0} (write : S → Bytes → S × ℤ) (contents : S → Bytes)
    (appends : (s : S) (b : Bytes) → contents (write s b).0 ≡ contents s ++ b) where
  write_string_lem :
      (os : S) (t : Bytes) → contents (write_string write os t).0 ≡ contents os ++ c_string t
  unfolding write_string
  write_string_lem os t =
      elim (Bool-cases (eqb_ℤ (write os (c_string t)).1 (pos (length (c_string t))))) [
        | inl e ↦ rw e (appends os (c_string t))
        | inr e ↦ rw e (appends os (c_string t))
      ]

  write_triggers_lem :
      (ts : List Bytes) (os : S) → contents (write_triggers write ts os) ≡ contents os ++ spaced ts
  unfolding write_triggers spaced
  write_triggers_lem [] os = sym (append-nil (contents os))
  write_triggers_lem (t ∷ ts) os =
      write_triggers_lem ts (write_string write (write os (b' ' ∷ [])).0 t).0
      ∙ ap (λ b. b ++ spaced ts)
          (write_string_lem (write os (b' ' ∷ [])).0 t
            ∙ ap (λ b. b ++ c_string t) (appends os (b' ' ∷ [])))
      ∙ append_assoc (contents os ++ b' ' ∷ []) (c_string t) (spaced ts)
      ∙ append_assoc (contents os) (b' ' ∷ []) (c_string t ++ spaced ts)

  triggers_write_lem :
      (packages : TriggerDb) (ps : List Entry) (os : S)
      → All (IsPackage packages.packages) ps
      → contents (triggers_write write ps os) ≡ contents os ++ text b'\n' (lines ps) []
  unfolding triggers_write text
  triggers_write_lem db [] os h = sym (append-nil (contents os))
  triggers_write_lem db ((csum, ts) ∷ ps) os (h, hs) = rw (pushed_sum csum h.sha1 h.all_bytes) (
      triggers_write_lem db ps (write after (b'\n' ∷ [])).0 hs
      ∙ ap (λ b. b ++ rest) (appends after (b'\n' ∷ []) ∙ ap (λ b. b ++ b'\n' ∷ []) entry)
      ∙ append_assoc (contents os ++ line_of csum ts) (b'\n' ∷ []) rest
      ∙ append_assoc (contents os) (line_of csum ts) (b'\n' ∷ rest))
    where
      rest : Bytes
      rest = text b'\n' (lines ps) []

      start : S
      start = (write os (sum_text csum)).0

      after : S
      after = write_triggers write ts start

      entry : contents after ≡ contents os ++ line_of csum ts
      entry =
          write_triggers_lem ts start
          ∙ ap (λ b. b ++ spaced ts) (appends os (sum_text csum))
          ∙ append_assoc (contents os) (sum_text csum) (spaced ts)

  -- What apk_db_triggers_write writes to an empty stream is read by apk_db_triggers_read, with a read
  -- for each package and two more, so that each of these packages has the triggers written, and all
  -- others what they had: for packages that the table finds under their SHA-1 checksums, which are
  -- installed without triggers, with triggers that are not empty and have no blank or newline. A
  -- write to the stream is taken to append all of its bytes.
  pub triggers_read-triggers_write :
      (db : TriggerDb) (ps : List Entry) (os : S) (fuel : ℕ) (old : Checksum)
      → contents os ≡ []
      → All (IsPackage db.packages) ps
      → All (HasNone db) ps
      → AreApart ps
      → length old.data_bytes ≡ 20
      → length ps + 2 ≤ fuel
      → Restored db ps
          (triggers_read mmap_read fuel (from_file (contents (triggers_write write ps os))) db old)
  triggers_read-triggers_write db ps os fuel old e ks ns d o enough =
      rw (triggers_write_lem db ps os ks ∙ ap (λ b. b ++ text b'\n' (lines ps) []) e)
        (read_lines ps fuel db old enough o ks ns d)
