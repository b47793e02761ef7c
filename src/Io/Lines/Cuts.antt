-- ===== src/Io/Lines/Cuts.antt =====
-- About the cut of a blob at a byte, where the blob is a first part of a text of lines.
use mathlib.Core.Path.{subst}
use am_linux_terminal_robot.Common.{
  ℕ, ◌≤◌, ◌≡◌, ◌≢◌, refl, sym, ap, ◌∙◌, none, some, List, [], ◌∷◌, ◌++◌, append-nil, length-append,
  Bytes, length, arith, starts_with,
}
use am_linux_terminal_robot.Blob.Scan.{split, cons_left}
use am_linux_terminal_robot.Blob.Splitting.{Lacks}

-- A text of lines that each end with `c`, and a rest.
unfoldable pub text : ℕ → List Bytes → Bytes → Bytes
text c [] rest = rest
text c (l ∷ ls) rest = l ++ c ∷ text c ls rest

-- A blob without the byte is not cut.
pub split-Lacks : (c : ℕ) (s : Bytes) → Lacks c s → split c [] s ≡ none
unfolding split starts_with
split-Lacks c [] h = refl
split-Lacks c (x ∷ s) h = ground (arith, split-Lacks c s h.1, h.0)

-- The cut of a first part of a line with its byte and what follows.
pub data Cut (c : ℕ) (l b more rest : Bytes) : Type 0 where
  short : length b ≤ length l → split c [] b ≡ none → Cut c l b more rest
  whole : (r : Bytes) → split c [] b ≡ some (l, r) → r ++ more ≡ rest → Cut c l b more rest

split-here : (c : ℕ) (b : Bytes) → split c [] (c ∷ b) ≡ some ([], b)
unfolding split starts_with
split-here c b = ground arith

split-other : (c x : ℕ) (b : Bytes) → x ≢ c → split c [] (x ∷ b) ≡ cons_left x (split c [] b)
unfolding split starts_with
split-other c x b n = ground (arith, n)

cons-Cut :
    {c y : ℕ} {l b more rest : Bytes}
    → y ≢ c
    → Cut c l b more rest
    → Cut c (y ∷ l) (y ∷ b) more rest
cons-Cut {c} {y} {l} {b} n (short s e) =
    short (omega (arith, s)) (split-other c y b n ∙ ap (cons_left y) e)
cons-Cut {c} {y} {l} {b} n (whole r e q) = whole r (split-other c y b n ∙ ap (cons_left y) e) q

pub split-Cut :
    (c : ℕ) (l b more rest : Bytes) → Lacks c l → b ++ more ≡ l ++ c ∷ rest → Cut c l b more rest
split-Cut c l [] more rest h e = short (omega arith) (unfold split in refl)
split-Cut c [] (x ∷ b) more rest h e =
    whole b (subst (λ i. split c [] (i ∷ b) ≡ some ([], b)) first (split-here c b)) tails
  where
    first : c ≡ x
    first = cc

    tails : b ++ more ≡ rest
    tails = cc
split-Cut c (y ∷ l) (x ∷ b) more rest h e =
    subst (λ i. Cut c (y ∷ l) (i ∷ b) more rest) first
      (cons-Cut h.0 (split-Cut c l b more rest h.1 tails))
  where
    first : y ≡ x
    first = cc

    tails : b ++ more ≡ l ++ c ∷ rest
    tails = cc

-- The cut behind the first line.
pub split-text : (c : ℕ) (l rest : Bytes) → Lacks c l → split c [] (l ++ c ∷ rest) ≡ some (l, rest)
split-text c l rest h =
    of_cut (split-Cut c l (l ++ c ∷ rest) [] rest h (append-nil (l ++ c ∷ rest)))
  where
    of_cut : Cut c l (l ++ c ∷ rest) [] rest → split c [] (l ++ c ∷ rest) ≡ some (l, rest)
    of_cut (short s n) = absurd (omega (arith, s, length-append l (c ∷ rest)))
    of_cut (whole r e q) = e ∙ ap (λ t. some (l, t)) (sym (append-nil r) ∙ q)
