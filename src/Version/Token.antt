-- ===== src/Version/Token.antt =====
-- apk-tools/src/version.c, lines 19 to 139: `next_token` and `get_token`. A token's type and the
-- rest of the blob, which the C code passes by pointer, are returned. A `char` is signed, and an
-- `int` that overflows is taken to wrap around at 32 bits.
use am_linux_terminal_robot.Common.{
  ℕ, suc, ◌+◌, ◌-◌, ◌*◌, ◌%◌, ◌^◌, Bool, ◌&&◌, ◌||◌, not, Option, none, some, List, [], ◌∷◌, Bytes,
  codes, ℤ, pos, neg, int_of_word, ltb, ◌==◌, if◌then◌else◌, length, drop, starts_with, is_digit,
  is_lower,
}

-- enum PARTS
pub data Token : Type 0 where
  invalid digit_or_zero digit letter suffix suffix_no revision_no end : Token

-- The enum's numbers, each one higher, since TOKEN_INVALID is -1.
abbrev pub rank : Token → ℕ
rank invalid = 0
rank digit_or_zero = 1
rank digit = 2
rank letter = 3
rank suffix = 4
rank suffix_no = 5
rank revision_no = 6
rank end = 7

abbrev pub is_token : Token → Token → Bool
is_token t u = rank t == rank u

-- The last test of `next_token`: a token may not come before the one it follows, but for three pairs.
abbrev pub in_order : Token → Token → Token
in_order t n =
    if ltb (rank n) (rank t)
      && not (
          is_token n digit_or_zero && is_token t digit
          || is_token n suffix && is_token t suffix_no
          || is_token n digit && is_token t letter)
    then invalid
    else n

-- `case '-'`: the byte behind the dash must be an `r`, which is skipped.
abbrev dash : Bytes → Token × Bytes
dash [] = (invalid, [])
dash (c ∷ s) = if c == b'r' then (revision_no, s) else (invalid, c ∷ s)

-- The `switch` on the byte, which is skipped.
abbrev symbol : ℕ → Bytes → Token × Bytes
symbol c s =
    if c == b'.'
    then (digit_or_zero, s)
    else if c == b'_'
    then (suffix, s)
    else if c == b'-'
    then dash s
    else (invalid, s)

unfoldable pub next_raw : Token → Bytes → Token × Bytes
next_raw t [] = (end, [])
next_raw t (c ∷ s) =
    if c == 0
    then (end, c ∷ s)
    else if (is_token t digit || is_token t digit_or_zero) && is_lower c
    then (letter, c ∷ s)
    else if is_token t letter && is_digit c
    then (digit, c ∷ s)
    else if is_token t suffix && is_digit c
    then (suffix_no, c ∷ s)
    else symbol c s

unfoldable pub next_token : Token → Bytes → Token × Bytes
next_token t s = let (n, rest) = next_raw t s in (in_order t n, rest)

-- Leading zeros, and what follows them.
unfoldable pub zeros : Bytes → ℕ × Bytes
zeros [] = (0, [])
zeros (c ∷ s) = let (n, rest) = zeros s in if c == b'0' then (suc n, rest) else (0, c ∷ s)

-- `v *= 10; v += c - '0'` over the digits at the front, in a 32-bit word.
unfoldable pub number : ℕ → Bytes → ℕ × Bytes
number v [] = (v, [])
number v (c ∷ s) =
    let more = number ((v * 10 + (c - b'0')) % 2 ^ 32) s in if is_digit c then more else (v, c ∷ s)

abbrev pub pre_suffixes : List Bytes
pre_suffixes = codes "alpha" ∷ codes "beta" ∷ codes "pre" ∷ codes "rc" ∷ []

abbrev pub post_suffixes : List Bytes
post_suffixes = codes "cvs" ∷ codes "svn" ∷ codes "git" ∷ codes "hg" ∷ codes "p" ∷ []

-- The first entry that the blob starts with: its index, and what follows it.
unfoldable pub find_suffix : List Bytes → ℕ → Bytes → Option (ℕ × Bytes)
find_suffix [] v s = none
find_suffix (p ∷ ps) v s =
    let more = find_suffix ps (suc v) s in
    if starts_with p s then some (v, drop (length p) s) else more

-- The value, the token's type and the rest of the blob behind the call.
abbrev pub Read : Type 0
Read = ℤ × Token × Bytes

-- What follows the `switch` of `get_token`; `nt` is none for TOKEN_INVALID.
abbrev pub settle : ℤ → Option Token → Token → Bytes → Read
settle v nt t [] = (v, end, [])
settle v (some n) t (c ∷ s) = (v, n, c ∷ s)
settle v none t (c ∷ s) = let (n, rest) = next_token t (c ∷ s) in (v, n, rest)

unfoldable pub read_number : Token → Bytes → Read
read_number t s = let (v, rest) = number 0 s in settle (int_of_word v) none t rest

-- Leading zeros are a token of their own, of the value -i.
unfoldable pub read_zeros : Bytes → Read
read_zeros s = let (n, rest) = zeros s in settle (neg n) (some digit) digit_or_zero rest

-- `v = blob->ptr[i++]`, of a signed `char`
abbrev pub char_value : ℕ → ℤ
char_value c = if ltb c 128 then pos c else neg (256 - c)

abbrev pub read_post : Option (ℕ × Bytes) → Bytes → Read
read_post (some (v, rest)) s = settle (pos v) none suffix rest
read_post none s = (neg 1, invalid, s)

abbrev pub read_pre : Option (ℕ × Bytes) → Bytes → Read
read_pre (some (v, rest)) s = settle (neg (4 - v)) none suffix rest
read_pre none s = read_post (find_suffix post_suffixes 0 s) s

-- The `switch` on the type.
unfoldable pub read_token : Token → ℕ → Bytes → Read
read_token digit_or_zero c s =
    if c == b'0' then read_zeros (c ∷ s) else read_number digit_or_zero (c ∷ s)
read_token digit c s = read_number digit (c ∷ s)
read_token suffix_no c s = read_number suffix_no (c ∷ s)
read_token revision_no c s = read_number revision_no (c ∷ s)
read_token letter c s = settle (char_value c) none letter s
read_token suffix c s = read_pre (find_suffix pre_suffixes 0 (c ∷ s)) (c ∷ s)
read_token invalid c s = (neg 1, invalid, c ∷ s)
read_token end c s = (neg 1, invalid, c ∷ s)

unfoldable pub get_token : Token → Bytes → Read
get_token t [] = (pos 0, end, [])
get_token t (c ∷ s) = read_token t c s
