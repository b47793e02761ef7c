-- ===== src/Version/Termination.antt =====
-- About the loops of apk-tools/src/version.c and the fuel they are given.
use am_linux_terminal_robot.Common.{
  ℕ, is_digit, zero, suc, ◌+◌, ◌-◌, ◌*◌, ◌%◌, ◌^◌, ◌≤◌, ◌<◌, ◌≡◌, refl, inl, inr, true, false,
  Option, none, some, [], ◌∷◌, Bytes, length, length-drop, ◌==◌, Bool-cases, arith, ℤ, starts_with,
  sym, pos, neg, int_of_word, All, List,
}
use am_linux_terminal_robot.Version.Token.{
  Token, invalid, digit_or_zero, digit, letter, suffix, suffix_no, revision_no, end, next_raw,
  next_token, zeros, number, find_suffix, read_number, read_zeros, char_value, read_token,
  get_token, settle, pre_suffixes, post_suffixes, read_pre, read_post,
}
use am_linux_terminal_robot.Version.Order.{compare_loop_go, compare_loop_stop}
use am_linux_terminal_robot.Version.Compare.{
  is_final, validate_loop, validate_fuel, Cursor, continues, advance, compare_loop, compare_fuel,
  start,
}

-- What a round makes smaller.
abbrev pub work : Token → Bytes → ℕ
work digit s = 2 * length s + 2
work digit_or_zero s = 2 * length s + 2
work suffix_no s = 2 * length s + 2
work revision_no s = 2 * length s + 2
work letter s = 2 * length s + 1
work suffix s = 2 * length s + 1
work _ s = 0

number-length : (v : ℕ) (s : Bytes) → length (number v s).1 ≤ length s
unfolding number
number-length v [] = omega arith
number-length v (c ∷ s) = ground (arith, number-length ((v * 10 + (c - 48)) % 2 ^ 32) s)

-- Digits at the front are skipped, one at least.
number_skips : (v c : ℕ) (s : Bytes) → is_digit c ≡ true → length (number v (c ∷ s)).1 ≤ length s
unfolding number
number_skips v c s h = ground (arith, number-length ((v * 10 + (c - 48)) % 2 ^ 32) s)

number_stays : (v c : ℕ) (s : Bytes) → is_digit c ≡ false → number v (c ∷ s) ≡ (v, c ∷ s)
unfolding number
number_stays v c s h = ground arith

zeros-length : (s : Bytes) → length (zeros s).1 ≤ length s
unfolding zeros
zeros-length [] = omega arith
zeros-length (c ∷ s) = ground (arith, zeros-length s)

zeros_skips : (c : ℕ) (s : Bytes) → (c == b'0') ≡ true → length (zeros (c ∷ s)).1 ≤ length s
unfolding zeros
zeros_skips c s h = ground (arith, zeros-length s)

-- A letter or a suffix may be followed by a number that starts at the same byte.
abbrev slack : Token → ℕ
slack letter = 4
slack suffix = 4
slack _ = 3

work-next_token :
    (t : Token) (c : ℕ) (s : Bytes)
    → work (next_token t (c ∷ s)).0 (next_token t (c ∷ s)).1 ≤ 2 * length s + slack t
unfolding next_token next_raw
work-next_token digit c [] = ground arith
work-next_token _ c [] = ground arith
work-next_token digit c (d ∷ s) = ground arith
work-next_token _ c (d ∷ s) = ground arith

work-settle :
    (v : ℤ) (t : Token) (s : Bytes)
    → work (settle v none t s).1 (settle v none t s).2 ≤ 2 * length s + (slack t - 2)
work-settle v t [] = omega arith
work-settle v digit (c ∷ s) = omega (arith, work-next_token digit c s)
work-settle v t (c ∷ s) = omega (arith, work-next_token t c s)

work-settle-some :
    (v : ℤ) (t : Token) (s : Bytes)
    → work (settle v (some digit) t s).1 (settle v (some digit) t s).2 ≤ 2 * length s + 2
work-settle-some v t [] = omega arith
work-settle-some v t (c ∷ s) = omega arith

starts_with-length : (p s : Bytes) → starts_with p s ≡ true → length p ≤ length s
unfolding starts_with
starts_with-length [] s h = omega arith
starts_with-length (x ∷ p) [] h = cc
starts_with-length (x ∷ p) (y ∷ s) h = ground (arith, starts_with-length p s)

-- A suffix that is found is not empty, and is skipped.
find_suffix_skips :
    (ps : List Bytes) (v : ℕ) (s : Bytes) {k : ℕ} {rest : Bytes}
    → All (λ p. 0 < length p) ps
    → find_suffix ps v s ≡ some (k, rest)
    → length rest < length s
unfolding find_suffix
find_suffix_skips [] v s h e = cc
find_suffix_skips (p ∷ ps) v s h e = elim (Bool-cases (starts_with p s)) [
  | inl q ↦ ground (arith, q, h.0, length-drop (length p) s, starts_with-length p s q)
  | inr q ↦ find_suffix_skips ps (suc v) s h.1 (rw q at e)
]

abbrev pub Shrinks : Token → Bytes → Type 0
Shrinks t s = work (get_token t s).1 (get_token t s).2 < work t s

work-read_number :
    (t : Token) (c : ℕ) (s : Bytes)
    → slack t ≡ 3
    → work (read_number t (c ∷ s)).1 (read_number t (c ∷ s)).2 < 2 * suc (length s) + 2
unfolding read_number
work-read_number t c s h = omega (
  arith,
  work-settle (int_of_word (number 0 (c ∷ s)).0) t (number 0 (c ∷ s)).1,
  number-length 0 (c ∷ s),
)

work-read_post :
    (o : Option (ℕ × Bytes)) (s : Bytes)
    → o ≡ find_suffix post_suffixes 0 s
    → work (read_post o s).1 (read_post o s).2 < 2 * length s + 1
work-read_post none s e = omega arith
work-read_post (some (v, rest)) s e = omega (
  arith,
  work-settle (pos v) suffix rest,
  find_suffix_skips post_suffixes 0 s {k = v} {rest = rest} (omega arith) (sym e),
)

work-read_pre :
    (o : Option (ℕ × Bytes)) (s : Bytes)
    → o ≡ find_suffix pre_suffixes 0 s
    → work (read_pre o s).1 (read_pre o s).2 < 2 * length s + 1
work-read_pre none s e = work-read_post (find_suffix post_suffixes 0 s) s refl
work-read_pre (some (v, rest)) s e = omega (
  arith,
  work-settle (neg (4 - v)) suffix rest,
  find_suffix_skips pre_suffixes 0 s {k = v} {rest = rest} (omega arith) (sym e),
)

work-read_zeros :
    (c : ℕ) (s : Bytes)
    → (c == b'0') ≡ true
    → work (read_zeros (c ∷ s)).1 (read_zeros (c ∷ s)).2 < 2 * suc (length s) + 2
unfolding read_zeros
work-read_zeros c s e = omega (
  arith,
  zeros_skips c s e,
  work-settle-some (neg (zeros (c ∷ s)).0) digit_or_zero (zeros (c ∷ s)).1,
)

digit_or_zero_work : (c : ℕ) (s : Bytes) → Shrinks digit_or_zero (c ∷ s)
unfolding get_token read_token
digit_or_zero_work c s = elim (Bool-cases (c == b'0')) [
  | inl e ↦ rw (e, get_token, read_token) (work-read_zeros c s e)
  | inr e ↦ rw (e, get_token, read_token) (work-read_number digit_or_zero c s refl)
]

-- Each call of `get_token` on a token that goes on makes the work smaller.
pub get_token-Shrinks : (t : Token) (s : Bytes) → is_final t ≡ false → Shrinks t s
unfolding get_token read_token
get_token-Shrinks digit [] h = omega arith
get_token-Shrinks t [] h = ground arith
get_token-Shrinks digit (c ∷ s) h = work-read_number digit c s refl
get_token-Shrinks digit_or_zero (c ∷ s) h = digit_or_zero_work c s
get_token-Shrinks suffix_no (c ∷ s) h = work-read_number suffix_no c s refl
get_token-Shrinks revision_no (c ∷ s) h = work-read_number revision_no c s refl
get_token-Shrinks letter (c ∷ s) h = omega (arith, work-settle (char_value c) letter s)
get_token-Shrinks suffix (c ∷ s) h = work-read_pre (find_suffix pre_suffixes 0 (c ∷ s)) (c ∷ s) refl
get_token-Shrinks invalid (c ∷ s) h = cc
get_token-Shrinks end (c ∷ s) h = cc

is_final_of_work : (t : Token) (s : Bytes) → work t s ≤ 0 → is_final t ≡ true
is_final_of_work digit s h = absurd (omega arith)
is_final_of_work digit_or_zero s h = absurd (omega arith)
is_final_of_work suffix_no s h = absurd (omega arith)
is_final_of_work revision_no s h = absurd (omega arith)
is_final_of_work letter s h = absurd (omega arith)
is_final_of_work suffix s h = absurd (omega arith)
is_final_of_work invalid s h = refl
is_final_of_work end s h = refl

validate_loop_final :
    (fuel : ℕ) (t : Token) (s : Bytes) → work t s ≤ fuel → is_final (validate_loop fuel t s) ≡ true
unfolding validate_loop
validate_loop_final zero t s h = is_final_of_work t s h
validate_loop_final (suc fuel) t s h = elim (Bool-cases (is_final t)) [
  | inl e ↦ rw (e, validate_loop) e
  | inr e ↦
      rw (e, validate_loop)
        (validate_loop_final fuel (get_token t s).1 (get_token t s).2
          (omega (arith, get_token-Shrinks t s e)))
]

-- The loop of `apk_version_validate` ends, at a final token, for every string: the fuel is enough.
pub validate_terminates :
    (ver : Bytes) → is_final (validate_loop (validate_fuel ver) digit ver) ≡ true
validate_terminates ver = validate_loop_final (validate_fuel ver) digit ver (omega arith)

not_final_of_continues : (c : Cursor) → continues c ≡ true → is_final c.at ≡ false
not_final_of_continues c h = ground arith

stops_at_final : (c : Cursor) → is_final c.at ≡ true → continues c ≡ false
stops_at_final c h = ground arith

compare_loop_final :
    (fuel : ℕ) (c : Cursor) → work c.at c.a ≤ fuel → continues (compare_loop fuel c) ≡ false
unfolding advance
compare_loop_final zero c h = unfold compare_loop in stops_at_final c (is_final_of_work c.at c.a h)
compare_loop_final (suc fuel) c h = elim (Bool-cases (continues c)) [
  | inl e ↦ rw (compare_loop_go fuel c e) (
      compare_loop_final fuel (advance c)
        (omega (arith, get_token-Shrinks c.at c.a (not_final_of_continues c e))))
  | inr e ↦ rw (compare_loop_stop (suc fuel) c e) e
]

-- The loop of `apk_version_compare_blob` ends by its own test, for all strings.
pub compare_terminates :
    (a b : Bytes) → continues (compare_loop (compare_fuel a b) (start a b)) ≡ false
compare_terminates a b = compare_loop_final (compare_fuel a b) (start a b) (omega arith)
