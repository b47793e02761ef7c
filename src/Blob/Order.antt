-- ===== src/Blob/Order.antt =====
-- About `apk_blob_compare` of apk-tools/src/blob.c as an order.
use am_linux_terminal_robot.Common.{
  ◌≡◌, ◌↔◌, refl, [], ◌∷◌, Bytes, ℤ, pos, negsuc, length, arith, neg_part, pos_part,
}
use am_linux_terminal_robot.Blob.Scan.{memcmp, compare}

memcmp_refl : (s : Bytes) → memcmp s s ≡ pos 0
unfolding memcmp
memcmp_refl [] = refl
memcmp_refl (x ∷ s) = ground (arith, memcmp_refl s)

eq_of_memcmp : (a b : Bytes) → length a ≡ length b → memcmp a b ≡ pos 0 → a ≡ b
unfolding memcmp
eq_of_memcmp [] [] l h = refl
eq_of_memcmp [] (y ∷ b) l h = absurd (omega arith)
eq_of_memcmp (x ∷ a) [] l h = absurd (omega arith)
eq_of_memcmp (x ∷ a) (y ∷ b) l h = ground (arith, eq_of_memcmp a b)

compare_zero : (a b : Bytes) → compare a b ≡ pos 0 → a ≡ b
unfolding compare
compare_zero a b h = ground (arith, eq_of_memcmp a b)

compare_refl : (a : Bytes) → compare a a ≡ pos 0
unfolding compare
compare_refl a = ground (arith, memcmp_refl a)

-- `apk_blob_compare` returns 0 exactly for equal blobs.
pub compare_zero_iff : (a b : Bytes) → (compare a b ≡ pos 0) ↔ (a ≡ b)
compare_zero_iff a b = (compare_zero a b, λ e. rw e (compare_refl b))

-- The order of two results -1, 0 and 1.
abbrev pub Opposite : ℤ → ℤ → Type 0
Opposite a b = (pos_part a ≡ neg_part b) × (neg_part a ≡ pos_part b)

memcmp-Opposite : (a b : Bytes) → length a ≡ length b → Opposite (memcmp a b) (memcmp b a)
unfolding memcmp
memcmp-Opposite [] [] l = omega arith
memcmp-Opposite [] (y ∷ b) l = absurd (omega arith)
memcmp-Opposite (x ∷ a) [] l = absurd (omega arith)
memcmp-Opposite (x ∷ a) (y ∷ b) l = ground (arith, memcmp-Opposite a b)

-- With its arguments exchanged `apk_blob_compare` returns the opposite sign.
pub compare-Opposite : (a b : Bytes) → Opposite (compare a b) (compare b a)
unfolding compare
compare-Opposite a b = ground (arith, memcmp-Opposite a b)

-- The sign is -1, 0 or 1, which the transitivity of the order reads.
abbrev pub IsBelow : Bytes → Bytes → Type 0
IsBelow a b = compare a b ≡ negsuc 0

memcmp_trans :
    (a b c : Bytes)
    → length a ≡ length b
    → length b ≡ length c
    → memcmp a b ≡ negsuc 0
    → memcmp b c ≡ negsuc 0
    → memcmp a c ≡ negsuc 0
unfolding memcmp
memcmp_trans [] b c l k p q = cc
memcmp_trans (x ∷ a) [] c l k p q = cc
memcmp_trans (x ∷ a) (y ∷ b) [] l k p q = cc
memcmp_trans (x ∷ a) (y ∷ b) (z ∷ c) l k p q = ground (arith, memcmp_trans a b c)

-- Blobs are ordered by `apk_blob_compare`: a blob below one that is below a third is below that.
pub IsBelow-trans : (a b c : Bytes) → IsBelow a b → IsBelow b c → IsBelow a c
unfolding compare
IsBelow-trans a b c p q = ground (arith, memcmp_trans a b c)
