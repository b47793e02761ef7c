-- ===== src/Archive/Blocks.antt =====
-- About the blocks of 512 bytes that apk-tools/src/archive.c writes entries in, and skips to.
use am_linux_terminal_robot.Common.{
  ℕ, ◌+◌, ◌%◌, ◌<◌, ◌≤◌, ◌≡◌, pos_part, Bool, none, Bytes, ◌==◌, arith, Bool-cases, inl, inr,
  length, ℤ, pos, ==_iff,
}
use am_linux_terminal_robot.Archive.{TarHeader}
use am_linux_terminal_robot.Archive.Parse.{to_skip, parse_entry}

abbrev Ends : ℕ → Bytes × ℤ → Type 0
Ends n w = (length w.0 ≡ n) × (w.1 ≡ pos 0)

-- What apk_tar_parse skips ends at a block, and is less than a block more than what is left.
pub to_skip_aligns :
    (offset left : ℕ)
    → ((offset + to_skip offset left) % 512 ≡ 0)
      × ((left ≤ to_skip offset left) × (to_skip offset left < left + 512))
unfolding to_skip
to_skip_aligns offset left = elim (Bool-cases ((offset + left) % 512 == 0)) [
  | inl e ↦ rw e ((==_iff ((offset + left) % 512) 0).0 e, (omega arith, omega arith))
  | inr e ↦ rw e (grind arith, (omega arith, grind arith))
]

module _ (resolve_uid resolve_gid : Bytes → ℤ → ℕ) (sha1 : Bytes → Bytes)
    (soft_checksums : Bool) where
  -- What apk_tar_parse takes for the size of an entry with the header.
  abbrev pub parsed_size : TarHeader → ℕ
  parsed_size buf =
      pos_part (parse_entry resolve_uid resolve_gid sha1 soft_checksums buf none).info.size
