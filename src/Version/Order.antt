-- ===== src/Version/Order.antt =====
-- About `apk_version_compare_blob` of apk-tools/src/version.c with its arguments exchanged, or the
-- same.
use am_linux_terminal_robot.Common.{
  ℕ, zero, suc, ◌≡◌, refl, ap, ◌∙◌, ◌⊎◌, inl, inr, true, false, Option, none, some, Bytes, length,
  ◌==◌, if◌then◌else◌, Bool-cases, arith,
}
use native.Mathlib.Nat.{add_comm}
use am_linux_terminal_robot.Version.Token.{Token, rank}
use am_linux_terminal_robot.Version.Compare.{
  version_equal, version_less, version_greater, Cursor, continues, advance, compare_loop, verdict,
  compare_bytes, compare_blob, start, compare_fuel,
}

-- The mask with the two sides exchanged.
abbrev pub flip_mask : ℕ → ℕ
flip_mask m =
    if m == version_less then version_greater else if m == version_greater then version_less else m

abbrev mirror : Cursor → Cursor
mirror c = record { at = c.bt; bt = c.at; a = c.b; b = c.a; av = c.bv; bv = c.av }

rank_inj : (t u : Token) → rank t ≡ rank u → t ≡ u
rank_inj t u h = ground arith

continues-mirror : (c : Cursor) → continues (mirror c) ≡ continues c
continues-mirror c = ground (arith, rank_inj c.at c.bt)

pub compare_loop_go :
    (fuel : ℕ) (c : Cursor)
    → continues c ≡ true
    → compare_loop (suc fuel) c ≡ compare_loop fuel (advance c)
unfolding compare_loop
compare_loop_go fuel c e = rw (e, compare_loop)

pub compare_loop_stop : (fuel : ℕ) (c : Cursor) → continues c ≡ false → compare_loop fuel c ≡ c
unfolding compare_loop
compare_loop_stop zero c e = refl
compare_loop_stop (suc fuel) c e = rw (e, compare_loop)

advance-mirror : (c : Cursor) → advance (mirror c) ≡ mirror (advance c)
unfolding advance
advance-mirror c = refl

compare_loop-mirror :
    (fuel : ℕ) (c : Cursor) → compare_loop fuel (mirror c) ≡ mirror (compare_loop fuel c)
compare_loop-mirror zero c = unfold compare_loop in refl
compare_loop-mirror (suc fuel) c = elim (Bool-cases (continues c)) [
  | inl e ↦
      rw (compare_loop_go fuel c e, compare_loop_go fuel (mirror c) (continues-mirror c ∙ e))
        (rw (advance-mirror c) (compare_loop-mirror fuel (advance c)))
  | inr e ↦
      rw (compare_loop_stop _ c e, compare_loop_stop _ (mirror c) (continues-mirror c ∙ e)) refl
]

verdict-mirror : (c : Cursor) → verdict (mirror c) ≡ flip_mask (verdict c)
unfolding verdict
verdict-mirror c = ground (arith, rank_inj c.at c.bt)

compare_bytes-flip_mask : (a b : Bytes) → compare_bytes b a ≡ flip_mask (compare_bytes a b)
unfolding compare_bytes
compare_bytes-flip_mask a b =
    rw (add_comm (length b) (length a))
      (ap verdict (compare_loop-mirror _ (start a b)) ∙ verdict-mirror (compare_loop _ (start a b)))

-- Comparing the same two versions the other way round gives the mirrored result; a null blob
-- included.
pub compare_blob-flip_mask : (a b : Option Bytes) → compare_blob b a ≡ flip_mask (compare_blob a b)
unfolding compare_blob
compare_blob-flip_mask none none = refl
compare_blob-flip_mask none (some b) = refl
compare_blob-flip_mask (some a) none = refl
compare_blob-flip_mask (some a) (some b) = compare_bytes-flip_mask a b

abbrev IsDiagonal : Cursor → Type 0
IsDiagonal c = (c.at ≡ c.bt) × (c.a ≡ c.b) × (c.av ≡ c.bv)

advance-IsDiagonal : (c : Cursor) → IsDiagonal c → IsDiagonal (advance c)
unfolding advance
advance-IsDiagonal c h = (cc, cc, cc)

compare_loop-IsDiagonal : (fuel : ℕ) (c : Cursor) → IsDiagonal c → IsDiagonal (compare_loop fuel c)
compare_loop-IsDiagonal zero c h = unfold compare_loop in h
compare_loop-IsDiagonal (suc fuel) c h = elim (Bool-cases (continues c)) [
  | inl e ↦
      rw (compare_loop_go fuel c e)
        (compare_loop-IsDiagonal fuel (advance c) (advance-IsDiagonal c h))
  | inr e ↦ rw (compare_loop_stop _ c e) h
]

verdict-IsDiagonal : (c : Cursor) → IsDiagonal c → verdict c ≡ version_equal
unfolding verdict
verdict-IsDiagonal c h = ground arith

-- A version is equal to itself, whatever bytes it is made of; a null blob included.
pub compare_blob_refl : (a : Option Bytes) → compare_blob a a ≡ version_equal
unfolding compare_blob compare_bytes
compare_blob_refl none = refl
compare_blob_refl (some a) =
    verdict-IsDiagonal _ (compare_loop-IsDiagonal (compare_fuel a a) (start a a) (refl, refl, refl))

pub verdict_total :
    (c : Cursor)
    → (verdict c ≡ version_less) ⊎ (verdict c ≡ version_equal) ⊎ (verdict c ≡ version_greater)
unfolding verdict
verdict_total c = ground arith
