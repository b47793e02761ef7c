-- ===== src/Version/Compare.antt =====
-- apk-tools/src/version.c, lines 141 to 239, and the masks of apk_version.h: validation, the
-- comparison, and the operators of a dependency. A loop takes fuel.
use am_linux_terminal_robot.Common.{
  ℕ, zero, suc, ◌+◌, ◌*◌, Bool, true, false, ◌&&◌, ◌||◌, not, Option, none, some, [], ◌∷◌, Bytes,
  codes, ℤ, pos, ltb_ℤ, eqb_ℤ, ltb, ◌==◌, if◌then◌else◌, length,
}
use am_linux_terminal_robot.Version.Token.{
  Token, rank, is_token, invalid, digit, suffix, end, get_token,
}

abbrev pub version_equal : ℕ
version_equal = 1

abbrev pub version_less : ℕ
version_less = 2

abbrev pub version_greater : ℕ
version_greater = 4

-- The switch on a mask of APK_VERSION_LESS = 2, EQUAL = 1 and GREATER = 4.
unfoldable pub op_string : ℕ → Bytes
op_string mask =
    if mask == 2
    then codes "<"
    else if mask == 3
    then codes "<="
    else if mask == 1
    then codes "="
    else if mask == 5
    then codes ">="
    else if mask == 4
    then codes ">"
    else codes "?"

-- `if (*str == '=') r |= APK_VERSION_EQUAL`, where `r` has not that bit.
abbrev with_equal : ℕ → Bytes → ℕ
with_equal r [] = r
with_equal r (c ∷ s) = if c == b'=' then r + version_equal else r

unfoldable pub result_mask : Bytes → ℕ
result_mask [] = 0
result_mask (c ∷ s) =
    if c == b'<'
    then with_equal version_less s
    else if c == b'>'
    then with_equal version_greater s
    else with_equal 0 (c ∷ s)

abbrev pub is_final : Token → Bool
is_final t = is_token t end || is_token t invalid

-- `while (t != TOKEN_END && t != TOKEN_INVALID) get_token(&t, &ver)`
unfoldable pub validate_loop : ℕ → Token → Bytes → Token
validate_loop zero t s = t
validate_loop (suc fuel) t s = elim (is_final t) [
  | true ↦ t
  | false ↦ validate_loop fuel (get_token t s).1 (get_token t s).2
]

-- Two rounds for each byte, and two more.
abbrev pub validate_fuel : Bytes → ℕ
validate_fuel s = 2 * length s + 2

unfoldable pub validate : Bytes → Bool
validate ver = is_token (validate_loop (validate_fuel ver) digit ver) end

-- The local variables of the comparison's loop.
pub record Cursor : Type 0 where
  pub at : Token
  pub bt : Token
  pub a : Bytes
  pub b : Bytes
  pub av : ℤ
  pub bv : ℤ

abbrev pub continues : Cursor → Bool
continues c = is_token c.at c.bt && not (is_final c.at) && eqb_ℤ c.av c.bv

unfoldable pub advance : Cursor → Cursor
advance c = record {
  at = (get_token c.at c.a).1;
  bt = (get_token c.bt c.b).1;
  a = (get_token c.at c.a).2;
  b = (get_token c.bt c.b).2;
  av = (get_token c.at c.a).0;
  bv = (get_token c.bt c.b).0;
}

unfoldable pub compare_loop : ℕ → Cursor → Cursor
compare_loop zero c = c
compare_loop (suc fuel) c = elim (continues c) [ true ↦ compare_loop fuel (advance c) | false ↦ c ]

-- A suffix whose value is negative marks a pre-release.
abbrev pub is_pre_release : Token → Bytes → Bool
is_pre_release t s = is_token t suffix && ltb_ℤ (get_token t s).0 (pos 0)

-- What follows the loop.
unfoldable pub verdict : Cursor → ℕ
verdict c =
    if ltb_ℤ c.av c.bv
    then version_less
    else if ltb_ℤ c.bv c.av
    then version_greater
    else if is_token c.at c.bt
    then version_equal
    else if is_pre_release c.at c.a
    then version_less
    else if is_pre_release c.bt c.b
    then version_greater
    else if ltb (rank c.bt) (rank c.at)
    then version_less
    else if ltb (rank c.at) (rank c.bt)
    then version_greater
    else version_equal

abbrev pub start : Bytes → Bytes → Cursor
start a b = record { at = digit; bt = digit; a = a; b = b; av = pos 0; bv = pos 0 }

abbrev pub compare_fuel : Bytes → Bytes → ℕ
compare_fuel a b = 2 * (length a + length b) + 2

unfoldable pub compare_bytes : Bytes → Bytes → ℕ
compare_bytes a b = verdict (compare_loop (compare_fuel a b) (start a b))

-- apk_version_compare_blob; none is APK_BLOB_NULL.
unfoldable pub compare_blob : Option Bytes → Option Bytes → ℕ
compare_blob none none = version_equal
compare_blob none (some b) = 7
compare_blob (some a) none = 7
compare_blob (some a) (some b) = compare_bytes a b
