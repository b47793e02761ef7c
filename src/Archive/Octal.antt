-- ===== src/Archive/Octal.antt =====
-- About get_octal and put_octal of apk-tools/src/archive.c, one after the other.
use native.Mathlib.Nat.{div-add-mod, pow-suc, mod-lt}
use am_linux_terminal_robot.Common.{
  ℕ, zero, suc, ◌+◌, ◌-◌, ◌*◌, ◌/◌, ◌%◌, ◌^◌, ◌<◌, ◌≡◌, refl, sym, ap, ◌∙◌, true, [], ◌∷◌, Bytes,
  ◌==◌, arith, Bool-cases, inl, inr, all_below, holds_below, get_or, pos, if◌then◌else◌, ltb,
  negsuc, ==_iff,
}
use am_linux_terminal_robot.Blob.Push.{xd}
use am_linux_terminal_robot.Blob.Pull.{pull_uint_loop, pull_uint}
use am_linux_terminal_robot.Blob.Numbers.{pull_digit, pull_stop}
use am_linux_terminal_robot.Archive.{octal_word, get_octal, fill, octal_digits, put_octal}

octal_table : all_below 8 (λ d. get_or xd d 0 == b'0' + d) ≡ true
unfolding all_below
octal_table = refl

octal_digit : (d : ℕ) → d < 8 → get_or xd d 0 ≡ b'0' + d
octal_digit d h = ground (arith, holds_below (λ d. get_or xd d 0 == b'0' + d) 8 d h octal_table)

pull_octal :
    (val d : ℕ) (s : Bytes)
    → d < 8
    → pull_uint_loop 8 val ((b'0' + d) ∷ s) ≡ pull_uint_loop 8 ((val * 8 + d) % 2 ^ 32) s
pull_octal val d s h =
    ap (λ c. pull_uint_loop 8 val (c ∷ s)) (sym (octal_digit d h))
    ∙ pull_digit 8 val d s (omega arith) h

pull_fill : (n : ℕ) (s : Bytes) → pull_uint_loop 8 0 (fill b'0' n s) ≡ pull_uint_loop 8 0 s
pull_fill zero s = refl
pull_fill (suc n) s = pull_octal 0 0 (fill b'0' n s) (omega arith) ∙ pull_fill n s

-- The digits of a value are read as the value.
pull_digits :
    (free value : ℕ) (done : Bytes)
    → value < 8 ^ free
    → value < 2 ^ 32
    → pull_uint_loop 8 0 (octal_digits free value done) ≡ pull_uint_loop 8 value done
unfolding octal_digits
pull_digits zero value done h l = ap (λ v. pull_uint_loop 8 v done) zero_value
  where
    zero_value : 0 ≡ value
    zero_value = omega (arith, h)
pull_digits (suc free) value done h l = elim (Bool-cases (value == 0)) [
  | inl e ↦
      rw e
        (pull_fill (suc free) done ∙ ap (λ v. pull_uint_loop 8 v done) (sym ((==_iff value 0).0 e)))
  | inr e ↦ rw e (
      pull_digits free (value / 8) ((b'0' + value % 8) ∷ done) less
        (omega (arith, div-add-mod value 8, l))
      ∙ pull_octal (value / 8) (value % 8) done (mod-lt value (omega arith))
      ∙ ap (λ v. pull_uint_loop 8 v done) again)
]
  where
    less : value / 8 < 8 ^ free
    less = grind (arith, div-add-mod value 8, pow-suc 8 free, h)

    again : (value / 8 * 8 + value % 8) % 2 ^ 32 ≡ value
    again = grind (arith, div-add-mod value 8, l)

-- What put_octal writes is read as the value, by get_octal as the `int`, if the array has room for
-- its digits and the value is below 2 ^ 32.
pub octal_word-put_octal :
    (l value : ℕ) → value < 8 ^ (l - 1) → value < 2 ^ 32 → octal_word (put_octal l value) ≡ value
unfolding put_octal pull_uint
octal_word-put_octal l value h w =
    ap (λ r. r.0) (pull_digits (l - 1) value (0 ∷ []) h w ∙ pull_stop 8 value (0 ∷ []) (inl refl))

-- get_octal reads the value that put_octal wrote, if the array has room for its digits and an `int`
-- for the value.
pub get_octal-put_octal :
    (l value : ℕ) → value < 8 ^ (l - 1) → value < 2 ^ 31 → get_octal (put_octal l value) ≡ pos value
unfolding get_octal
get_octal-put_octal l value h w =
    rw (octal_word-put_octal l value h (omega (arith, w)))
      (ap (λ b. if b then pos value else negsuc (2 ^ 32 - 1 - value)) small)
  where
    small : ltb value (2 ^ 31) ≡ true
    small = ground (arith, w)
