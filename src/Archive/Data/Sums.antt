-- ===== src/Archive/Data/Sums.antt =====
-- About the bytes that tar_entry_read of apk-tools/src/archive.c gives, and the checksum of them.
use am_linux_terminal_robot.Common.{
  ℕ, ◌+◌, ◌<◌, ◌≤◌, ◌≡◌, false, Option, none, some, ◌++◌, Bytes, ltb_ℤ, ℤ, pos, length,
}
use am_linux_terminal_robot.Blob.Checksum.{Checksum}
use am_linux_terminal_robot.Archive.Data.{TarEntry}

module _ {T : Type 0} (read : T → ℕ → T × (ℤ × Bytes)) (sha1 : Bytes → Bytes) where
  -- What a read of the archive's stream gives, if it is no error: no more bytes than were asked
  -- for, and their number.
  abbrev pub IsRead : Type 0
  IsRead =
      (t : T) (n : ℕ)
      → ltb_ℤ (read t n).1.0 (pos 0) ≡ false
      → ((read t n).1.0 ≡ pos (length (read t n).1.1)) × (length (read t n).1.1 ≤ n)

  abbrev pub IsSummed : Option Checksum → Type 0
  IsSummed none = ⊥
  IsSummed (some c) = Unit

  abbrev pub digest_of : Bytes → Option Checksum
  digest_of bytes = some (record { data_bytes = sha1 bytes; type = 20 })

  -- Bytes of an entry are read: they are taken from those that are left, and given to the digest,
  -- whose result is the checksum as soon as none are left.
  pub record Reads (teis : TarEntry T) (bytes : Bytes) (teis' : TarEntry T) : Type 0 where
    pub left : teis'.bytes_left + length bytes ≡ teis.bytes_left
    pub feeds : IsSummed teis.csum → (teis'.fed ≡ teis.fed ++ bytes) × IsSummed teis'.csum
    pub sums :
        IsSummed teis.csum
        → teis'.bytes_left ≡ 0
        → 0 < length bytes
        → teis'.csum ≡ digest_of (teis.fed ++ bytes)
    pub stays : teis.bytes_left ≡ 0 → teis' ≡ teis
