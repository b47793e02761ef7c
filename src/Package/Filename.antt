-- ===== src/Package/Filename.antt =====
-- apk-tools/src/package.c, lines 33 to 54, 119 to 159 and 341 to 361: the name of a package's file,
-- and the types of its scripts.
pub mod RoundTrip
use am_linux_terminal_robot.Common.{
  ℕ, zero, suc, ◌+◌, Bool, true, false, not, Option, none, some, List, [], ◌∷◌, ◌++◌, Bytes, codes,
  leb, ◌==◌, if◌then◌else◌, take, bytes_eq, is_digit,
}
use am_linux_terminal_robot.Blob.Push.{Out, push_blob, push_hexdump}
use am_linux_terminal_robot.Blob.Scan.{last_byte}

-- Where the loop of apk_pkg_parse_name stands: it broke at a dash, returned -1, or goes on with
-- this number of dashes seen.
pub data Scan : Type 0 where
  broke : Bytes → Bytes → Scan
  refused : Scan
  going : ℕ → Scan

-- One round, at the byte `c` before the rest `d ∷ s`, which the rounds before it have seen.
abbrev pub scan_round : ℕ → ℕ → Bytes → Scan → Scan
scan_round c d s (broke l r) = broke (c ∷ l) r
scan_round c d s refused = refused
scan_round c d s (going dash) =
    if not (c == b'-')
    then going dash
    else if is_digit d
    then broke [] (d ∷ s)
    else if leb 2 (dash + 1)
    then refused
    else going (dash + 1)

-- The loop from the last byte but one to the first.
unfoldable pub scan_name : Bytes → Scan
scan_name [] = going 0
scan_name (c ∷ []) = going 0
scan_name (c ∷ d ∷ s) = scan_round c d s (scan_name (d ∷ s))

abbrev pub scan_result : Scan → Option (Bytes × Bytes)
scan_result (broke l r) = some (l, r)
scan_result refused = none
scan_result (going dash) = none

-- apk_pkg_parse_name: the name and the version; none is -1.
unfoldable pub parse_name : Option Bytes → Option (Bytes × Bytes)
parse_name none = none
parse_name (some apkname) = scan_result (scan_name apkname)

-- apk_pkg_format_plain, of a package's name and version; the null byte is pushed too.
unfoldable pub format_plain : Bytes → Bytes → Option Out → Option Out
format_plain name version to =
    let to1 = push_blob to name in
    let to2 = push_blob to1 (codes "-") in
    let to3 = push_blob to2 version in
    let to4 = push_blob to3 (codes ".apk") in push_blob to4 (0 ∷ [])

abbrev pub cache_csum_bytes : ℕ
cache_csum_bytes = 4

-- apk_pkg_format_cache, of a name, a version and the bytes of a checksum
unfoldable pub format_cache : Bytes → Bytes → Bytes → Option Out → Option Out
format_cache name version csum to =
    let to1 = push_blob to name in
    let to2 = push_blob to1 (codes "-") in
    let to3 = push_blob to2 version in
    let to4 = push_blob to3 (codes ".") in
    let to5 = push_hexdump to4 (take cache_csum_bytes csum) in
    let to6 = push_blob to5 (codes ".apk") in push_blob to6 (0 ∷ [])

abbrev drop_last : ℕ → Bytes → Bytes
drop_last c [] = []
drop_last c (d ∷ s) = c ∷ drop_last d s

-- trim: the blob without a newline at its end.
unfoldable pub trim : Option Bytes → Option Bytes
trim none = none
trim (some []) = some []
trim (some (c ∷ s)) = if last_byte c s == b'\n' then some (drop_last c s) else some (c ∷ s)

-- apk_script_types, in the order of the APK_SCRIPT numbers
abbrev pub script_types : List Bytes
script_types =
    codes "pre-install"
    ∷ codes "post-install"
    ∷ codes "pre-deinstall"
    ∷ codes "post-deinstall"
    ∷ codes "pre-upgrade"
    ∷ codes "post-upgrade"
    ∷ codes "trigger"
    ∷ []

unfoldable pub script_index : List Bytes → ℕ → Bytes → Option ℕ
script_index [] i name = none
script_index (t ∷ ts) i name = if bytes_eq t name then some i else script_index ts (suc i) name

-- apk_script_type; none is APK_SCRIPT_INVALID.
unfoldable pub script_type : Bytes → Option ℕ
script_type name = script_index script_types 0 name
