-- ===== src/Blob/Segments.antt =====
-- About `apk_blob_for_each_segment` of apk-tools/src/blob.c with a separator of one byte, as all
-- its callers have it.
use am_linux_terminal_robot.Common.{
  ℕ, zero, suc, ◌<◌, ◌≡◌, ◌≢◌, refl, sym, ap, ◌∙◌, ◌++◌, All, ==_refl, ==_iff, inl, inr, Bool, true,
  false, Option, none, some, List, [], ◌∷◌, Bytes, ltb, ◌==◌, if◌then◌else◌, length, starts_with,
  Bool-cases, arith, ℤ, pos, eqb_ℤ,
}
use am_linux_terminal_robot.Blob.Scan.{split, cons_left, segment_loop, for_each_segment}

abbrev grow : ℕ → List Bytes → List Bytes
grow x [] = (x ∷ []) ∷ []
grow x (p ∷ ps) = (x ∷ p) ∷ ps

-- The pieces between the bytes `c`.
pub pieces : ℕ → Bytes → List Bytes
pieces c [] = [] ∷ []
pieces c (x ∷ s) = let rest = pieces c s in if c == x then [] ∷ rest else grow x rest

abbrev drop_last_empty : List Bytes → List Bytes
drop_last_empty [] = []
drop_last_empty ([] ∷ []) = []
drop_last_empty ((x ∷ p) ∷ []) = (x ∷ p) ∷ []
drop_last_empty (p ∷ q ∷ ps) = p ∷ drop_last_empty (q ∷ ps)

-- The pieces, without an empty last one.
unfoldable pub fields : ℕ → Bytes → List Bytes
unfolding pieces
fields c s = drop_last_empty (pieces c s)

-- The state and the result of a callback that is run over fields until it fails.
unfoldable pub run_all {ℓ} : {S : Type ℓ} → (S → Bytes → S × ℤ) → S → List Bytes → S × ℤ
run_all cb s [] = (s, pos 0)
run_all cb s (p ∷ ps) =
    let rest = run_all cb (cb s p).0 ps in if eqb_ℤ (cb s p).1 (pos 0) then rest else cb s p

-- What a split says of the pieces.
abbrev Cuts : ℕ → Bytes → Option (Bytes × Bytes) → Type 0
Cuts c s none = pieces c s ≡ s ∷ []
Cuts c s (some (l, r)) = (pieces c s ≡ l ∷ pieces c r) × (length r < length s)

Cuts-step :
    (c x : ℕ) (s : Bytes) (o : Option (Bytes × Bytes))
    → (c == x) ≡ false
    → Cuts c s o
    → Cuts c (x ∷ s) (cons_left x o)
unfolding pieces
Cuts-step c x s none h p = rw (h, p) refl
Cuts-step c x s (some (l, r)) h p = (rw (h, p.0) refl, omega arith)

split_here : (c x : ℕ) (s : Bytes) → (c == x) ≡ true → split c [] (x ∷ s) ≡ some ([], s)
unfolding split starts_with
split_here c x s h = ground arith

split_later :
    (c x : ℕ) (s : Bytes) → (c == x) ≡ false → split c [] (x ∷ s) ≡ cons_left x (split c [] s)
unfolding split starts_with
split_later c x s h = ground arith

pieces_here : (c x : ℕ) (s : Bytes) → (c == x) ≡ true → pieces c (x ∷ s) ≡ [] ∷ pieces c s
unfolding pieces
pieces_here c x s h = rw h

split-Cuts : (c : ℕ) (s : Bytes) → Cuts c s (split c [] s)
split-Cuts c [] = unfold split pieces in refl
split-Cuts c (x ∷ s) = elim (Bool-cases (c == x)) [
  | inl e ↦ rw (split_here c x s e) (pieces_here c x s e, omega arith)
  | inr e ↦ rw (split_later c x s e) (Cuts-step c x s (split c [] s) e (split-Cuts c s))
]

abbrev is_cons : List Bytes → Bool
is_cons [] = false
is_cons (p ∷ ps) = true

pieces_cons : (c : ℕ) (s : Bytes) → is_cons (pieces c s) ≡ true
unfolding pieces
pieces_cons c [] = refl
pieces_cons c (x ∷ s) = ground (arith, pieces_cons c s)

drop_last_cons :
    (l : Bytes) (ps : List Bytes)
    → is_cons ps ≡ true
    → drop_last_empty (l ∷ ps) ≡ l ∷ drop_last_empty ps
drop_last_cons l [] h = cc
drop_last_cons [] (p ∷ ps) h = refl
drop_last_cons (x ∷ l) (p ∷ ps) h = refl

fields_cut : (c : ℕ) (s l r : Bytes) → pieces c s ≡ l ∷ pieces c r → fields c s ≡ l ∷ fields c r
unfolding fields
fields_cut c s l r h = rw h (drop_last_cons l (pieces c r) (pieces_cons c r))

-- Pieces that each end with the byte.
unfoldable pub joined : ℕ → List Bytes → Bytes
joined c [] = []
joined c (l ∷ ls) = l ++ c ∷ joined c ls

pieces_line : (c : ℕ) (l s : Bytes) → All (λ x. x ≢ c) l → pieces c (l ++ c ∷ s) ≡ l ∷ pieces c s
unfolding pieces
pieces_line c [] s h = rw (==_refl c) refl
pieces_line c (x ∷ l) s (p, h) = rw (pieces_line c l s h, apart) refl
  where
    apart : (c == x) ≡ false
    apart = elim (Bool-cases (c == x)) [ inl e ↦ absurd (p (sym ((==_iff c x).0 e))) | inr e ↦ e ]

-- Texts without the byte are the fields of what they are joined to.
pub fields-joined :
    (c : ℕ) (ls : List Bytes) → All (All (λ x. x ≢ c)) ls → fields c (joined c ls) ≡ ls
unfolding joined
fields-joined c [] h = unfold fields pieces in refl
fields-joined c (l ∷ ls) (p, h) =
    fields_cut c (l ++ c ∷ joined c ls) l (joined c ls) (pieces_line c l (joined c ls) p)
    ∙ ap (λ ps. l ∷ ps) (fields-joined c ls h)

zero_result : (rc : ℤ) → eqb_ℤ rc (pos 0) ≡ true → rc ≡ pos 0
zero_result rc h = ground arith

module _ {ℓ} {S : Type ℓ} (cb : S → Bytes → S × ℤ) (c : ℕ) where
  run_single : (s : S) (p : Bytes) → run_all cb s (p ∷ []) ≡ cb s p
  unfolding run_all
  run_single s p = ground (arith, zero_result (cb s p).1)

  last_field :
      (s : S) (r : Bytes)
      → fields c r ≡ drop_last_empty (r ∷ [])
      → (if ltb 0 (length r) then some (cb s r) else some (s, pos 0))
        ≡ some (run_all cb s (fields c r))
  last_field s [] h = rw h (unfold run_all in refl)
  last_field s (x ∷ r) h = rw (h, run_single s (x ∷ r)) (ground arith)

  run_cons :
      (s : S) (l : Bytes) (ps : List Bytes) (o : Option (S × ℤ))
      → o ≡ some (run_all cb (cb s l).0 ps)
      → (if eqb_ℤ (cb s l).1 (pos 0) then o else some (cb s l)) ≡ some (run_all cb s (l ∷ ps))
  unfolding run_all
  run_cons s l ps o h = ground arith

  loop_runs :
      (fuel : ℕ) (s : S) (r : Bytes) (o : Option (Bytes × Bytes))
      → length r < fuel
      → split c [] r ≡ o
      → Cuts c r o
      → segment_loop cb c [] fuel s r ≡ some (run_all cb s (fields c r))
  unfolding segment_loop
  loop_runs zero s r o h e k = absurd (omega arith)
  loop_runs (suc fuel) s r none h e k =
      rw (e, segment_loop) (last_field s r (unfold fields in ap drop_last_empty k))
  loop_runs (suc fuel) s r (some (l, r')) h e k =
      rw (e, segment_loop)
        (rw (fields_cut c r l r' k.0) (
          run_cons s l (fields c r') _
            (loop_runs fuel (cb s l).0 r' (split c [] r') (omega arith) refl (split-Cuts c r'))))

  -- The loop ends for every blob, with what the callback gives over the fields in their order.
  pub for_each_segment-run_all :
      (s : S) (blob : Bytes) → for_each_segment cb c [] s blob ≡ some (run_all cb s (fields c blob))
  unfolding for_each_segment
  for_each_segment-run_all s blob =
      loop_runs (suc (length blob)) s blob (split c [] blob) (omega arith) refl (split-Cuts c blob)
