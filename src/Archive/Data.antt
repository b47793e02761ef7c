-- ===== src/Archive/Data.antt =====
-- apk-tools/src/archive.c, lines 80 to 102: the data of an entry, as the parser of entries reads it
-- from the stream of the archive.
pub mod Sums
use am_linux_terminal_robot.Common.{
  ℕ, ◌+◌, ◌-◌, Bool, true, false, Option, none, some, List, [], ◌∷◌, ◌++◌, Bytes, ◌==◌,
  if◌then◌else◌, ltb, ltb_ℤ, ℤ, pos, pos_part,
}
use am_linux_terminal_robot.Blob.Checksum.{Checksum}

-- struct apk_tar_entry_istream; `fed` is what the digest was given, and a null `csum` is none.
pub record TarEntry (T : Type 0) : Type 0 where
  pub tar_is : T
  pub bytes_left : ℕ
  pub fed : Bytes
  pub csum : Option Checksum

-- `read` gives the bytes it read and their number, or an error. `sha1` is OpenSSL's digest.
module _ {T : Type 0} (read : T → ℕ → T × (ℤ × Bytes)) (sha1 : Bytes → Bytes) where
  abbrev summed : TarEntry T → Bytes → Checksum → TarEntry T
  summed teis fed old =
      if teis.bytes_left == 0
      then record teis { fed = fed; csum = some (record { data_bytes = sha1 fed; type = 20 }) }
      else record teis { fed = fed }

  abbrev fed_with : TarEntry T → Bytes → Option Checksum → TarEntry T
  fed_with teis d none = teis
  fed_with teis d (some old) = summed teis (teis.fed ++ d) old

  -- What follows the read of the archive's stream.
  abbrev pub took : TarEntry T → T × (ℤ × Bytes) → TarEntry T × (ℤ × Bytes)
  took teis (t, (r, d)) = if ltb_ℤ r (pos 0) then (record teis { tar_is = t }, (r, [])) else (
    fed_with (record teis { tar_is = t; bytes_left = teis.bytes_left - pos_part r }) d teis.csum,
    (r, d),
  )

  -- tar_entry_read
  unfoldable pub entry_read : TarEntry T → ℕ → TarEntry T × (ℤ × Bytes)
  entry_read teis size =
      let n = if ltb teis.bytes_left size then teis.bytes_left else size in
      if n == 0 then (teis, (pos 0, [])) else took teis (read teis.tar_is n)

  -- Reads of these sizes one after the other, with the bytes they gave.
  unfoldable pub entry_reads : TarEntry T → List ℕ → TarEntry T × Bytes
  entry_reads teis [] = (teis, [])
  entry_reads teis (size ∷ sizes) =
      let (teis1, (r, d)) = entry_read teis size in
      let (teis2, rest) = entry_reads teis1 sizes in (teis2, d ++ rest)
