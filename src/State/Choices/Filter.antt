-- ===== src/State/Choices/Filter.antt =====
-- About the loop that removes refused candidates from the choices of a name.
use mathlib.Core.List.{Permᴰ}
use mathlib.Core.List.Permᴰ
use mathlib.Core.List.Permᴰ.{nil, cons, swap, trans}
use mathlib.Core.Path.{subst}
use am_linux_terminal_robot.Common.{
  ℕ, zero, suc, ◌≤◌, ◌≡◌, refl, sym, ap, ◌∙◌, Bool, List, [], ◌∷◌, if◌then◌else◌, length, All,
  All-take, ◌%◌, ◌^◌, arith, Bool-cases, inl, inr, ◌==◌,
}
use am_linux_terminal_robot.Package.Dependency.{Dependency}
use am_linux_terminal_robot.State.{Db, provides}
use am_linux_terminal_robot.State.Names.{IsDb, IsOf, IsOwned}
use am_linux_terminal_robot.State.Choices.{
  last_to_front, prune_loop, prune_choices, prune_world, is_installable, name_choices_new,
  counted_pkgs, ns_from_choices,
}

-- The entries that pass the test.
unfoldable pub kept : (ℕ → Bool) → List ℕ → List ℕ
kept test [] = []
kept test (p ∷ ps) = if test p then p ∷ kept test ps else kept test ps

behind_front : ℕ → List ℕ → List ℕ
behind_front x [] = x ∷ []
behind_front x (l ∷ r) = l ∷ x ∷ r

behind_front-perm : (x : ℕ) (l : List ℕ) → Permᴰ (behind_front x l) (x ∷ l)
unfolding behind_front
behind_front-perm x [] = Permᴰ.refl (x ∷ [])
behind_front-perm x (l ∷ r) = swap refl refl

last_to_front_step :
    (x y : ℕ) (xs : List ℕ) → last_to_front (x ∷ y ∷ xs) ≡ behind_front x (last_to_front (y ∷ xs))
unfolding last_to_front behind_front
last_to_front_step x y xs = elim (last_to_front (y ∷ xs)) [ [] ↦ refl | l ∷ r ↦ refl ]

-- The entries stay, in another order.
last_to_front-perm : (xs : List ℕ) → Permᴰ (last_to_front xs) xs
unfolding last_to_front
last_to_front-perm [] = Permᴰ.refl []
last_to_front-perm (x ∷ []) = Permᴰ.refl (x ∷ [])
last_to_front-perm (x ∷ y ∷ xs) =
    subst (λ l. Permᴰ l (x ∷ y ∷ xs)) (sym (last_to_front_step x y xs))
      (trans (behind_front-perm x (last_to_front (y ∷ xs)))
        (cons refl (last_to_front-perm (y ∷ xs))))

kept_swap :
    (test : ℕ → Bool) (x y : ℕ) (l : List ℕ) → Permᴰ (kept test (x ∷ y ∷ l)) (kept test (y ∷ x ∷ l))
unfolding kept
kept_swap test x y l = elim (Bool-cases (test x)) [
  | inl e ↦ elim (Bool-cases (test y)) [
    | inl f ↦ rw (e, f) (swap refl refl)
    | inr f ↦ rw (e, f) (Permᴰ.refl _)
  ]
  | inr e ↦ elim (Bool-cases (test y)) [
    | inl f ↦ rw (e, f) (Permᴰ.refl _)
    | inr f ↦ rw (e, f) (Permᴰ.refl _)
  ]
]

kept_cons :
    (test : ℕ → Bool) (x : ℕ) (l l' : List ℕ)
    → Permᴰ (kept test l) (kept test l')
    → Permᴰ (kept test (x ∷ l)) (kept test (x ∷ l'))
unfolding kept
kept_cons test x l l' h = elim (Bool-cases (test x)) [ inl e ↦ rw e (cons refl h) | inr e ↦ rw e h ]

kept-perm : (test : ℕ → Bool) {l l' : List ℕ} → Permᴰ l l' → Permᴰ (kept test l) (kept test l')
kept-perm test nil = Permᴰ.refl _
kept-perm test (cons {a} {b} {l₁} {l₂} e h) =
    subst (λ x. Permᴰ (kept test (a ∷ l₁)) (kept test (x ∷ l₂))) e
      (kept_cons test a l₁ l₂ (kept-perm test h))
kept-perm test (swap {a} {b} {a'} {b'} {l} e f) =
    subst (λ x. Permᴰ (kept test (a ∷ b ∷ l)) (kept test (a' ∷ x ∷ l))) e
      (subst (λ x. Permᴰ (kept test (a ∷ b ∷ l)) (kept test (x ∷ a ∷ l))) f (kept_swap test a b l))
kept-perm test (trans g h) = trans (kept-perm test g) (kept-perm test h)

length-last_to_front : (xs : List ℕ) → length (last_to_front xs) ≡ length xs
unfolding last_to_front behind_front
length-last_to_front [] = refl
length-last_to_front (x ∷ []) = refl
length-last_to_front (x ∷ y ∷ xs) =
    ap length (last_to_front_step x y xs)
    ∙ length_behind x (last_to_front (y ∷ xs))
    ∙ ap suc (length-last_to_front (y ∷ xs))
  where
    length_behind : (x : ℕ) (l : List ℕ) → length (behind_front x l) ≡ suc (length l)
    length_behind x [] = refl
    length_behind x (l ∷ r) = refl

loop_keeps :
    (test : ℕ → Bool) (fuel : ℕ) (ps : List ℕ)
    → length ps ≤ fuel
    → Permᴰ (prune_loop test fuel ps) (kept test ps)
unfolding prune_loop kept
loop_keeps test zero [] h = Permᴰ.refl []
loop_keeps test zero (p ∷ ps) h = absurd (omega arith)
loop_keeps test (suc fuel) [] h = Permᴰ.refl []
loop_keeps test (suc fuel) (p ∷ ps) h = elim (Bool-cases (test p)) [
  | inl e ↦ rw (e, prune_loop) (cons refl (loop_keeps test fuel ps (omega arith)))
  | inr e ↦
      rw (e, prune_loop)
        (trans (loop_keeps test fuel (last_to_front ps) (omega (arith, length-last_to_front ps)))
          (kept-perm test (last_to_front-perm ps)))
]

-- The loop that overwrites a refused candidate by the last one ends with exactly the candidates
-- that pass its test, each as often as it stood there, in some order.
pub prune_choices-kept :
    (test : ℕ → Bool) (ps : List ℕ) → Permᴰ (prune_choices test ps) (kept test ps)
prune_choices-kept test ps = loop_keeps test (length ps) ps (omega arith)

module _ {κ} (P : ℕ → Type κ) where
  pub All-perm : {l l' : List ℕ} → Permᴰ l l' → All P l → All P l'
  All-perm nil h = tt
  All-perm (cons e p) h = (subst P e h.0, All-perm p h.1)
  All-perm (swap e f) h = (subst P f h.1.0, (subst P e h.0, h.1.1))
  All-perm (trans p q) h = All-perm q (All-perm p h)

  pub All-kept : (test : ℕ → Bool) (ps : List ℕ) → All P ps → All P (kept test ps)
  unfolding kept
  All-kept test [] h = tt
  All-kept test (p ∷ ps) h = elim (Bool-cases (test p)) [
    | inl e ↦ rw e (h.0, All-kept test ps h.1)
    | inr e ↦ rw e (All-kept test ps h.1)
  ]

  pub All-prune_choices : (test : ℕ → Bool) (ps : List ℕ) → All P ps → All P (prune_choices test ps)
  All-prune_choices test ps h =
      All-perm (Permᴰ.symm (prune_choices-kept test ps)) (All-kept test ps h)

  All-prune_world :
      (db : Db) (name : ℕ) (deps : List Dependency) (ps : List ℕ)
      → All P ps
      → All P (prune_world db name deps ps)
  unfolding prune_world
  All-prune_world db name [] ps h = h
  All-prune_world db name (dep ∷ deps) ps h = elim (Bool-cases (dep.name.id == name)) [
    | inl e ↦ rw e (All-prune_world db name deps _ (All-prune_choices (provides db dep) ps h))
    | inr e ↦ rw e (All-prune_world db name deps ps h)
  ]

-- The candidates that a name is visited with are packages of the name.
pub name_choices_new-IsOwned :
    (db : Db) {num : ℕ} (name : ℕ)
    → IsDb db num
    → IsOwned db name (ns_from_choices (name_choices_new db name))
unfolding name_choices_new
name_choices_new-IsOwned db name d =
    let fit =
      All-prune_choices (IsOf db name) (λ p. is_installable (db.candidate p).filename)
        (counted_pkgs (db.entry name).pkgs)
        (All-take (IsOf db name) (length (db.entry name).pkgs % 2 ^ 16) (db.entry name).pkgs
          (d.owned name)) in
    elim (Bool-cases (length (db.entry name).pkgs == 0)) [
      | inl e ↦ rw e tt
      | inr e ↦ elim (Bool-cases (db.entry name).toplevel_override) [
        | inl f ↦ rw (e, f) fit
        | inr f ↦ rw (e, f) (All-prune_world (IsOf db name) db name db.world _ fit)
      ]
    ]
