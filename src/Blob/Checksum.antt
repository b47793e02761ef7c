-- ===== src/Blob/Checksum.antt =====
-- apk-tools/src/blob.c, `apk_blob_push_csum` and `apk_blob_pull_csum`, and the checksums of
-- apk_blob.h.
use am_linux_terminal_robot.Common.{
  ℕ, Option, none, some, [], ◌∷◌, ◌++◌, Bytes, codes, ◌==◌, if◌then◌else◌, take, drop, ℤ,
}
use am_linux_terminal_robot.Blob.Scan.{compare}
use am_linux_terminal_robot.Blob.Push.{Out, dx, push_blob, push_hexdump, push_base64}
use am_linux_terminal_robot.Blob.Pull.{Pulled, pull_hexdump, pull_base64}

abbrev pub checksum_md5 : ℕ
checksum_md5 = 16

abbrev pub checksum_sha1 : ℕ
checksum_sha1 = 20

-- struct apk_checksum: `data` has 20 bytes, and `type` stands behind them in memory.
pub record Checksum : Type 0 where
  pub data_bytes : Bytes
  pub type : ℕ

-- APK_BLOB_CSUM: the blob that `type` measures.
abbrev pub csum_blob : Checksum → Bytes
csum_blob c = take c.type c.data_bytes

-- apk_checksum_compare
unfoldable pub checksum_compare : Checksum → Checksum → ℤ
checksum_compare a b = compare (csum_blob a) (csum_blob b)

unfoldable pub push_csum : Option Out → Checksum → Option Out
push_csum to csum =
    if csum.type == checksum_md5
    then push_hexdump to (csum_blob csum)
    else if csum.type == checksum_sha1
    then push_base64 (push_blob to (codes "Q1")) (csum_blob csum) csum.type
    else none

-- The checksum and the blob behind a call; none: a byte outside the blob is read.
abbrev pub PulledCsum : Type 0
PulledCsum = Option (Checksum × Option Bytes)

-- The bytes pulled into `data`, with those behind them kept.
abbrev pub store : ℕ → Bytes → Pulled → PulledCsum
store type old none = none
store type old (some (to, b)) = some (record { data_bytes = to ++ drop type old; type = type }, b)

abbrev pub pull_sha1 : ℕ → Bytes → Checksum → PulledCsum
pull_sha1 encoding s csum =
    if encoding == b'X'
    then store checksum_sha1 csum.data_bytes
        (pull_hexdump (some s) (take checksum_sha1 csum.data_bytes))
    else if encoding == b'Q'
    then store checksum_sha1 csum.data_bytes
        (some (pull_base64 (some s) (take checksum_sha1 csum.data_bytes)))
    else some (record csum { type = checksum_sha1 }, none)

unfoldable pub pull_csum : Option Bytes → Checksum → PulledCsum
pull_csum none csum = some (csum, none)
pull_csum (some []) csum = some (csum, none)
pull_csum (some (c ∷ [])) csum = some (csum, none)
pull_csum (some (c ∷ d ∷ s)) csum = elim (dx c) [
  | some _ ↦
      store checksum_md5 csum.data_bytes
        (pull_hexdump (some (c ∷ d ∷ s)) (take checksum_md5 csum.data_bytes))
  | none ↦ if d == b'1' then pull_sha1 c s csum else some (csum, none)
]
