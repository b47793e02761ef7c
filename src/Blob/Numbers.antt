-- ===== src/Blob/Numbers.antt =====
-- About `apk_blob_push_uint` and `apk_blob_pull_uint` of apk-tools/src/blob.c, one after the other.
use native.Mathlib.Nat.{div-add-mod, div-add-mod', pow-suc, mod-lt}
use am_linux_terminal_robot.Common.{
  ℕ, zero, suc, ◌+◌, ◌*◌, ◌/◌, ◌%◌, ◌^◌, ◌≤◌, ◌<◌, ◌≡◌, refl, sym, ap, ◌∙◌, inl, inr, ◌⊎◌, true,
  false, not, Option, none, some, [], ◌∷◌, ◌++◌, Bytes, codes, ◌==◌, Bool-cases, arith, all_below,
  holds_below, get_or,
}
use am_linux_terminal_robot.Blob.Push.{Out, dx, xd, uint_digits, push_uint, push_blob}
use am_linux_terminal_robot.Blob.Pull.{digit_below, pull_uint_loop, pull_uint}
use am_linux_terminal_robot.Blob.Hex.{dx-xd}

-- The text does not go on with a digit of the radix.
abbrev pub Stops : ℕ → Bytes → Type 0
Stops radix [] = Unit
Stops radix (c ∷ s) = (c ≡ 0) ⊎ (digit_below radix (dx c) ≡ none)

pub pull_stop :
    (radix val : ℕ) (rest : Bytes) → Stops radix rest → pull_uint_loop radix val rest ≡ (val, rest)
unfolding pull_uint_loop
pull_stop radix val [] h = refl
pull_stop radix val (c ∷ s) h = ground arith

xd_table : all_below 16 (λ x. not (get_or xd x 0 == 0)) ≡ true
unfolding all_below
xd_table = refl

xd_not_zero : (x : ℕ) → x < 16 → (get_or xd x 0 == 0) ≡ false
xd_not_zero x h = ground (arith, holds_below _ 16 x h xd_table)

all_done :
    (done rest : Bytes) (value radix : ℕ) {ds : Bytes}
    → (value == 0) ≡ true
    → some done ≡ some ds
    → pull_uint_loop radix 0 (ds ++ rest) ≡ pull_uint_loop radix value (done ++ rest)
all_done done rest value radix q e = ground arith

no_room :
    (value radix : ℕ) (done : Bytes)
    → (value == 0) ≡ false
    → uint_digits zero value radix done ≡ none
unfolding uint_digits
no_room value radix done q = rw q

pub pull_digit :
    (radix val d : ℕ) (s : Bytes)
    → radix ≤ 16
    → d < radix
    → pull_uint_loop radix val (get_or xd d 0 ∷ s)
      ≡ pull_uint_loop radix ((val * radix + d) % 2 ^ 32) s
unfolding pull_uint_loop
pull_digit radix val d s r h = ground (arith, xd_not_zero d, dx-xd d)

quotient_le_half : (value radix : ℕ) → 2 ≤ radix → 2 * (value / radix) ≤ value
quotient_le_half value radix h = grind (arith, div-add-mod value radix)

uint_digits_done :
    (free value radix : ℕ) (done : Bytes)
    → (value == 0) ≡ true
    → uint_digits free value radix done ≡ some done
unfolding uint_digits
uint_digits_done zero value radix done h = rw h
uint_digits_done (suc free) value radix done h = rw (h, uint_digits)

uint_digits_more :
    (free value radix : ℕ) (done : Bytes)
    → (value == 0) ≡ false
    → uint_digits (suc free) value radix done
      ≡ uint_digits free (value / radix) radix (get_or xd (value % radix) 0 ∷ done)
unfolding uint_digits
uint_digits_more free value radix done h = rw (h, uint_digits)

last_digit :
    (value radix : ℕ) → value < 2 ^ 32 → (value / radix * radix + value % radix) % 2 ^ 32 ≡ value
last_digit value radix h = omega (arith, div-add-mod' value radix)

pull-uint_digits :
    (free value radix : ℕ) (done rest : Bytes) {ds : Bytes}
    → 2 ≤ radix
    → radix ≤ 16
    → value < 2 ^ 32
    → uint_digits free value radix done ≡ some ds
    → pull_uint_loop radix 0 (ds ++ rest) ≡ pull_uint_loop radix value (done ++ rest)
pull-uint_digits zero value radix done rest l r v e = elim (Bool-cases (value == 0)) [
  | inl q ↦ all_done done rest value radix q (sym (uint_digits_done zero value radix done q) ∙ e)
  | inr q ↦ cc (no_room value radix done q)
]
pull-uint_digits (suc free) value radix done rest l r v e = elim (Bool-cases (value == 0)) [
  | inl q ↦
      all_done done rest value radix q (sym (uint_digits_done (suc free) value radix done q) ∙ e)
  | inr q ↦
      pull-uint_digits free (value / radix) radix (get_or xd (value % radix) 0 ∷ done) rest l r
        (omega (arith, quotient_le_half value radix l))
        (sym (uint_digits_more free value radix done q) ∙ e)
      ∙ pull_digit radix (value / radix) (value % radix) (done ++ rest) r
          (mod-lt value (omega arith))
      ∙ ap (λ v. pull_uint_loop radix v (done ++ rest)) (last_digit value radix v)
]

-- 64 bytes hold the digits of every 32-bit number.
uint_digits_total :
    (free value radix : ℕ) (done : Bytes)
    → 2 ≤ radix
    → value < 2 ^ free
    → (ds : Bytes) × (uint_digits free value radix done ≡ some ds)
uint_digits_total zero value radix done l v =
    (done, uint_digits_done zero value radix done (ground arith))
uint_digits_total (suc free) value radix done l v = elim (Bool-cases (value == 0)) [
  | inl q ↦ (done, uint_digits_done (suc free) value radix done q)
  | inr q ↦ rw (uint_digits_more free value radix done q) (
      uint_digits_total free (value / radix) radix _ l
        (omega (arith, quotient_le_half value radix l, pow-suc 2 free)))
]

push_uint_zero :
    (to : Option Out) (value radix : ℕ)
    → (value == 0) ≡ true
    → push_uint to value radix ≡ push_blob to (codes "0")
unfolding push_uint
push_uint_zero to value radix h = rw h

push_uint_digits :
    (to : Option Out) (value radix : ℕ) {ds : Bytes}
    → (value == 0) ≡ false
    → uint_digits 64 value radix [] ≡ some ds
    → push_uint to value radix ≡ push_blob to ds
unfolding push_uint
push_uint_digits to value radix h e = rw (h, e)

pull_uint_ends :
    (s rest : Bytes) (value radix : ℕ)
    → pull_uint_loop radix 0 s ≡ pull_uint_loop radix value rest
    → Stops radix rest
    → pull_uint (some s) radix ≡ (value, some rest)
unfolding pull_uint
pull_uint_ends s rest value radix e st = rw (e, pull_stop radix value rest st) refl

pull_zero_digit :
    (value radix : ℕ) (rest : Bytes)
    → (value == 0) ≡ true
    → 2 ≤ radix
    → radix ≤ 16
    → pull_uint_loop radix 0 (b'0' ∷ rest) ≡ pull_uint_loop radix value rest
pull_zero_digit value radix rest q l r =
    pull_digit radix 0 0 rest r (omega arith) ∙ ap (λ v. pull_uint_loop radix v rest) (ground arith)

-- A 32-bit number is pushed, in any radix from 2 to 16 and with no overflow of the 64 bytes for its
-- digits, as a text that is pulled back as the number, with what stands behind it left, if that
-- does not go on with a digit.
pub pull_uint-push_uint :
    (value radix : ℕ) (rest : Bytes)
    → value < 2 ^ 32
    → 2 ≤ radix
    → radix ≤ 16
    → Stops radix rest
    → (ds : Bytes) × ((to : Option Out) → push_uint to value radix ≡ push_blob to ds)
      × (pull_uint (some (ds ++ rest)) radix ≡ (value, some rest))
pull_uint-push_uint value radix rest v l r st = elim (Bool-cases (value == 0)) [
  | inl q ↦ (
    codes "0",
    λ to. push_uint_zero to value radix q,
    pull_uint_ends (b'0' ∷ rest) rest value radix (pull_zero_digit value radix rest q l r) st,
  )
  | inr q ↦
      let (ds, e) = uint_digits_total 64 value radix [] l (omega arith) in
      (
        ds,
        λ to. push_uint_digits to value radix q e,
        pull_uint_ends (ds ++ rest) rest value radix
            (pull-uint_digits 64 value radix [] rest l r v e) st,
      )
]
