-- ===== src/Blob/Splitting.antt =====
-- About the searches of apk-tools/src/blob.c: `apk_blob_split`, `apk_blob_rsplit`, `apk_blob_spn`
-- and `apk_blob_cspn`.
use am_linux_terminal_robot.Common.{
  ℕ, ◌≤◌, ◌<◌, ◌≡◌, ◌≢◌, refl, sym, ap, inl, inr, Bool, true, false, Option, none, some, [], ◌∷◌,
  ◌++◌, Bytes, ltb, ◌==◌, length, drop, starts_with, All, Bool-cases, arith, not, length-append,
  starts_with-append, append-drop_of_starts_with,
}
use am_linux_terminal_robot.Blob.Scan.{in_set, spn, cspn, rsplit, split, cons_left}

-- `l` and `r` stand before and behind the first place of the separator in `s`.
pub record IsFirstSplit (sep s l r : Bytes) : Type 0 where
  pub whole : s ≡ l ++ (sep ++ r)
  pub first : (l' r' : Bytes) → s ≡ l' ++ (sep ++ r') → length l ≤ length l'

-- What `split` finds is a split at the first place, and if it finds none, there is none.
abbrev pub SplitsFirst : Bytes → Bytes → Option (Bytes × Bytes) → Type 0
SplitsFirst sep s none = (l r : Bytes) → s ≢ l ++ (sep ++ r)
SplitsFirst sep s (some (l, r)) = IsFirstSplit sep s l r

too_short : (sep s l r : Bytes) → length s < length sep → s ≢ l ++ (sep ++ r)
too_short sep s l r h e =
    omega (arith, ap length e, length-append {0} l (sep ++ r), length-append {0} sep r)

no_place :
    (sep : Bytes) (x : ℕ) (s l r : Bytes)
    → starts_with sep (x ∷ s) ≡ false
    → ((l' r' : Bytes) → s ≢ l' ++ (sep ++ r'))
    → x ∷ s ≢ l ++ (sep ++ r)
no_place sep x s [] r h p e = cc (starts_with-append sep r)
no_place sep x s (y ∷ l) r h p e = p l r (cc)

later_place :
    (sep : Bytes) (x : ℕ) (s l l' r' : Bytes)
    → starts_with sep (x ∷ s) ≡ false
    → ((l' r' : Bytes) → s ≡ l' ++ (sep ++ r') → length l ≤ length l')
    → x ∷ s ≡ l' ++ (sep ++ r')
    → length (x ∷ l) ≤ length l'
later_place sep x s l [] r' h p e = cc (starts_with-append sep r')
later_place sep x s l (y ∷ l') r' h p e = omega (arith, p l' r' (cc))

cons_step :
    (sep : Bytes) (x : ℕ) (s : Bytes) (o : Option (Bytes × Bytes))
    → starts_with sep (x ∷ s) ≡ false
    → SplitsFirst sep s o
    → SplitsFirst sep (x ∷ s) (cons_left x o)
cons_step sep x s none h p = λ l r. no_place sep x s l r h p
cons_step sep x s (some (l, r)) h p = record {
  whole = ap (λ t. x ∷ t) p.whole;
  first = λ l' r'. later_place sep x s l l' r' h p.first;
}

here_split :
    (sep s : Bytes) → starts_with sep s ≡ true → IsFirstSplit sep s [] (drop (length sep) s)
here_split sep s h = record {
  whole = sym (append-drop_of_starts_with sep s h);
  first = λ l' r' e. omega arith;
}

-- Whatever `apk_blob_split` finds is a split of the blob at the first place of the separator, and
-- if it returns 0, the separator stands nowhere in the blob.
pub split_first : (c : ℕ) (cs s : Bytes) → SplitsFirst (c ∷ cs) s (split c cs s)
unfolding split
split_first c cs [] = λ l r. too_short (c ∷ cs) [] l r (omega arith)
split_first c cs (x ∷ s) = elim (Bool-cases (ltb (length (x ∷ s)) (length (c ∷ cs)))) [
  | inl short ↦ rw short (λ l r. too_short (c ∷ cs) (x ∷ s) l r (ground arith))
  | inr long ↦ rw long (elim (Bool-cases (starts_with (c ∷ cs) (x ∷ s))) [
    | inl here ↦ rw here (here_split (c ∷ cs) (x ∷ s) here)
    | inr later ↦ rw later (cons_step (c ∷ cs) x s (split c cs s) later (split_first c cs s))
  ])
]

-- No byte of a list is `c`.
abbrev pub Lacks : ℕ → Bytes → Type 0
Lacks c = All (λ x. x ≢ c)

abbrev pub SplitsLast : ℕ → Bytes → Option (Bytes × Bytes) → Type 0
SplitsLast sep s none = Lacks sep s
SplitsLast sep s (some (l, r)) = (s ≡ l ++ (sep ∷ r)) × Lacks sep r

last_step :
    (sep c : ℕ) (s : Bytes) (o : Option (Bytes × Bytes))
    → rsplit sep s ≡ o
    → SplitsLast sep s o
    → SplitsLast sep (c ∷ s) (rsplit sep (c ∷ s))
unfolding rsplit
last_step sep c s none e p = elim (Bool-cases (c == sep)) [
  | inl same ↦ rw (e, same, rsplit) (ground arith, p)
  | inr other ↦ rw (e, other, rsplit) (ground arith, p)
]
last_step sep c s (some (l, r)) e p = rw (e, rsplit) (ap (λ t. c ∷ t) p.0, p.1)

-- `apk_blob_rsplit` cuts the blob at the last separator, and returns 0 only if it holds none.
pub rsplit_last : (sep : ℕ) (s : Bytes) → SplitsLast sep s (rsplit sep s)
rsplit_last sep [] = unfold rsplit in tt
rsplit_last sep (c ∷ s) = last_step sep c s (rsplit sep s) refl (rsplit_last sep s)

-- The longest prefix whose bytes pass `test`, and the byte behind it, which fails.
abbrev pub Spans : (ℕ → Bool) → Bytes → Option (Bytes × Bytes) → Type 0
Spans test s none = All (λ x. test x ≡ true) s
Spans test s (some (l, [])) = ⊥
Spans test s (some (l, c ∷ r)) = (s ≡ l ++ (c ∷ r)) × All (λ x. test x ≡ true) l × (test c ≡ false)

span_step :
    (test : ℕ → Bool) (x : ℕ) (s : Bytes) (o : Option (Bytes × Bytes))
    → test x ≡ true
    → Spans test s o
    → Spans test (x ∷ s) (cons_left x o)
span_step test x s none h p = (h, p)
span_step test x s (some (l, [])) h p = p
span_step test x s (some (l, c ∷ r)) h p = (ap (λ t. x ∷ t) p.0, (h, p.1), p.2)

-- `apk_blob_spn` cuts the blob at the first byte that is not accepted, and returns 0 only if all
-- are.
pub spn-Spans : (accept s : Bytes) → Spans (in_set accept) s (spn accept s)
unfolding spn
spn-Spans accept [] = tt
spn-Spans accept (c ∷ s) = elim (Bool-cases (in_set accept c)) [
  | inl e ↦ rw e (span_step (in_set accept) c s (spn accept s) e (spn-Spans accept s))
  | inr e ↦ rw e (refl, tt, e)
]

-- `apk_blob_cspn` cuts the blob at the first byte that is rejected, and returns 0 only if none is.
pub cspn-Spans : (reject s : Bytes) → Spans (λ x. not (in_set reject x)) s (cspn reject s)
unfolding cspn
cspn-Spans reject [] = tt
cspn-Spans reject (c ∷ s) = elim (Bool-cases (in_set reject c)) [
  | inl e ↦ rw e (refl, tt, ap not e)
  | inr e ↦
      rw e (
        span_step (λ x. not (in_set reject x)) c s (cspn reject s) (ap not e) (cspn-Spans reject s))
]
