-- ===== src/State/Prune/Invariant.antt =====
-- About apk_state_prune_dependency of apk-tools/src/state.c, and the states of the names.
use am_linux_terminal_robot.Common.{
  ℕ, ◌<◌, ◌≤◌, ◌≡◌, refl, sym, ap, ◌∙◌, Bool, true, false, Option, none, some, List, [], ◌∷◌, ◌==◌,
  leb, if◌then◌else◌, length, All, get_or, set, arith, Bool-cases, inl, inr, ℤ, pos, neg, ltb_ℤ,
  ==_refl,
}
use mathlib.Core.Path.{subst}
use am_linux_terminal_robot.Hash.{get_or-set}
use am_linux_terminal_robot.Package.Dependency.{Dependency, depmask_conflict}
use am_linux_terminal_robot.State.{
  Db, Flags, NameState, empty, locked, choices, SolverState, num_names, provides, pkg_available,
  ns_from_pkg, ns_from_pkg_non_pending,
}
use am_linux_terminal_robot.State.Names.{
  count-set, unsettled, is_unsettled, bit, IsOf, IsOwned, IsDb, IsNames, set-IsNames,
}
use am_linux_terminal_robot.State.Choices.Filter.{All-prune_choices, name_choices_new-IsOwned}
use am_linux_terminal_robot.State.Prune.{
  name_state, put, when_pending, prune_locked, prune_left, prune_visited, prune_state, visit,
  prune_dependency,
}

-- A name with something left to do: it is to be locked to a package, or has choices.
abbrev pub IsOpen : NameState → Type 0
IsOpen empty = ⊥
IsOpen (locked pkg false error) = ⊥
IsOpen (locked pkg true error) = Unit
IsOpen (choices c) = Unit

module _ (db : Db) (flags : Flags) (num : ℕ) where
  -- The names' states stay those of their own packages, no name that is settled comes to be
  -- unsettled again, and a result above zero leaves the name open.
  pub record IsPruned (names : List NameState) (dep : Dependency) (st : SolverState) (r : ℤ)
      : Type 0 where
    pub holds : IsNames db num st.names
    pub unsettled_le : unsettled st.names ≤ unsettled names
    pub opens : ltb_ℤ (pos 0) r ≡ true → (dep.name.id < num) × IsOpen (name_state st dep.name.id)

  unsettled-set :
      (names : List NameState) (i : ℕ) (s : NameState)
      → i < length names
      → bit (is_unsettled s) ≤ bit (is_unsettled (get_or names i empty))
      → unsettled (set names i s) ≤ unsettled names
  unsettled-set names i s l h = omega (arith, count-set is_unsettled names i s l)

  -- A new state of the dependency's name, no more unsettled than the old one.
  written :
      (names : List NameState) (dep : Dependency) (s : NameState) (st : SolverState) (r : ℤ)
      → IsNames db num names
      → dep.name.id < num
      → IsOwned db dep.name.id s
      → bit (is_unsettled s) ≤ bit (is_unsettled (get_or names dep.name.id empty))
      → st.names ≡ set names dep.name.id s
      → (ltb_ℤ (pos 0) r ≡ true → IsOpen s)
      → IsPruned names dep st r
  written names dep s st r h l o u e p =
      let n = length_of h in
      record {
        holds = subst (IsNames db num) (sym e) (set-IsNames db names dep.name.id s h l o);
        unsettled_le =
            subst (λ ns. unsettled ns ≤ unsettled names) (sym e)
              (unsettled-set names dep.name.id s n u);
        opens =
            λ q. (l, subst IsOpen (sym (ap (λ ns. get_or ns dep.name.id empty) e ∙ there n)) (p q));
      }
    where
      length_of : IsNames db num names → dep.name.id < length names
      length_of h = omega (arith, h.size)

      there : dep.name.id < length names → get_or (set names dep.name.id s) dep.name.id empty ≡ s
      there n =
          get_or-set names dep.name.id dep.name.id s empty n
          ∙ ap (λ b. if b then s else get_or names dep.name.id empty) (==_refl dep.name.id)

  unchanged :
      (st : SolverState) (dep : Dependency) (r : ℤ)
      → IsNames db num st.names
      → (ltb_ℤ (pos 0) r ≡ true → (dep.name.id < num) × IsOpen (name_state st dep.name.id))
      → IsPruned st.names dep st r
  unchanged st dep r h p = record { holds = h; unsettled_le = omega arith; opens = p }

  state-IsOpen :
      (st : SolverState) (dep : Dependency) (s : NameState)
      → name_state st dep.name.id ≡ s
      → IsOpen s
      → IsOpen (name_state st dep.name.id)
  state-IsOpen st dep s e o = subst IsOpen (sym e) o

  pending_IsPruned :
      (st : SolverState) (dep : Dependency) (pkg : Option ℕ) (pending : Bool)
      → IsNames db num st.names
      → dep.name.id < num
      → name_state st dep.name.id ≡ locked pkg pending false
      → IsPruned st.names dep
          (when_pending db flags pending st).0
          (when_pending db flags pending st).1
  pending_IsPruned st dep pkg true h l e =
      unchanged st dep (pos 1) h (λ _. (l, state-IsOpen st dep _ e tt))
  pending_IsPruned st dep pkg false h l e = unchanged st dep (pos 0) h (λ q. cc)

  locked_IsPruned :
      (st : SolverState) (dep : Dependency) (pkg : Option ℕ) (pending error : Bool)
      → IsNames db num st.names
      → dep.name.id < num
      → name_state st dep.name.id ≡ locked pkg pending error
      → IsPruned st.names dep
          (prune_locked db flags st dep pkg pending error).0
          (prune_locked db flags st dep pkg pending error).1
  unfolding prune_locked
  locked_IsPruned st dep pkg pending true h l e = unchanged st dep (neg 1) h (λ q. cc)
  locked_IsPruned st dep none true false h l e =
      elim (Bool-cases (dep.result_mask == depmask_conflict)) [
        | inl c ↦ rw c (pending_IsPruned st dep none true h l e)
        | inr c ↦ rw c (
            written st.names dep (ns_from_pkg_non_pending none) _ (neg 1) h l tt (omega arith) refl
              (λ q. cc))
      ]
  locked_IsPruned st dep none false false h l e =
      elim (Bool-cases (dep.result_mask == depmask_conflict)) [
        | inl c ↦ rw c (pending_IsPruned st dep none false h l e)
        | inr c ↦ rw c (unchanged st dep (neg 1) h (λ q. cc))
      ]
  locked_IsPruned st dep (some pkg) pending false h l e = elim (Bool-cases (provides db dep pkg)) [
    | inl c ↦ rw c (pending_IsPruned st dep (some pkg) pending h l e)
    | inr c ↦ rw c (unchanged st dep (neg 1) h (λ q. cc))
  ]

  left_IsPruned :
      (st : SolverState) (dep : Dependency) (c : List ℕ)
      → IsNames db num st.names
      → dep.name.id < num
      → bit (is_unsettled (name_state st dep.name.id)) ≡ 1
      → All (IsOf db dep.name.id) c
      → IsPruned st.names dep
          (prune_left db flags st dep.name.id c).0
          (prune_left db flags st dep.name.id c).1
  unfolding prune_left
  left_IsPruned st dep [] h l e o =
      written st.names dep (ns_from_pkg none) _ (neg 1) h l tt (omega (arith, e)) refl (λ q. tt)
  left_IsPruned st dep (p ∷ []) h l e o = elim (Bool-cases (pkg_available db flags p)) [
    | inl a ↦ rw a (
        written st.names dep (ns_from_pkg (some p)) _ (pos 1) h l o.0 (omega (arith, e)) refl
          (λ q. tt))
    | inr a ↦
        rw a (
          written st.names dep (ns_from_pkg none) _ (neg 1) h l tt (omega (arith, e)) refl
            (λ q. tt))
  ]
  left_IsPruned st dep (p ∷ q ∷ ps) h l e o =
      written st.names dep (choices (p ∷ q ∷ ps)) _ _ h l o (omega (arith, e)) refl (λ _. tt)

  visited_IsPruned :
      (st : SolverState) (dep : Dependency) (s : NameState)
      → IsNames db num st.names
      → dep.name.id < num
      → name_state st dep.name.id ≡ s
      → IsPruned st.names dep
          (prune_visited db flags st dep s).0
          (prune_visited db flags st dep s).1
  unfolding prune_visited
  visited_IsPruned st dep empty h l e = unchanged st dep (neg 1) h (λ q. cc)
  visited_IsPruned st dep (locked pkg pending error) h l e =
      locked_IsPruned st dep pkg pending error h l e
  visited_IsPruned st dep (choices c) h l e =
      left_IsPruned st dep _ h l (ap (λ s. bit (is_unsettled s)) e) (
        All-prune_choices (IsOf db dep.name.id) (provides db dep) c
          (subst (IsOwned db dep.name.id) e (h.holds dep.name.id)))

  after_visit :
      (names names' : List NameState) (dep : Dependency) (st : SolverState) (r : ℤ)
      → unsettled names' ≤ unsettled names
      → IsPruned names' dep st r
      → IsPruned names dep st r
  after_visit names names' dep st r u p = record {
    holds = p.holds;
    unsettled_le = omega (arith, p.unsettled_le);
    opens = p.opens;
  }

  state_IsPruned :
      (st : SolverState) (dep : Dependency) (s : NameState)
      → IsDb db num
      → IsNames db num st.names
      → dep.name.id < num
      → name_state st dep.name.id ≡ s
      → IsPruned st.names dep (prune_state db flags st dep s).0 (prune_state db flags st dep s).1
  state_IsPruned st dep (locked pkg pending error) d h l e =
      visited_IsPruned st dep (locked pkg pending error) h l e
  state_IsPruned st dep (choices c) d h l e = visited_IsPruned st dep (choices c) h l e
  state_IsPruned st dep empty d h l e = elim (Bool-cases (dep.result_mask == depmask_conflict)) [
    | inl c ↦ rw c (written st.names dep (ns_from_pkg none) _ (pos 1) h l tt old refl (λ q. tt))
    | inr c ↦ rw c (
        after_visit st.names _ dep _ _
          (unsettled-set st.names dep.name.id _ n (one (visit db flags dep)))
          (visited_IsPruned (put st dep.name.id (visit db flags dep)) dep (visit db flags dep)
            (set-IsNames db st.names dep.name.id _ h l (name_choices_new-IsOwned db dep.name.id d))
            l there))
  ]
    where
      n : dep.name.id < length st.names
      n = omega (arith, h.size)

      old : 1 ≤ bit (is_unsettled (name_state st dep.name.id))
      old = omega (arith, ap (λ s. bit (is_unsettled s)) e)

      one : (s : NameState) → bit (is_unsettled s) ≤ bit (is_unsettled (name_state st dep.name.id))
      one s = elim (Bool-cases (is_unsettled s)) [ inl b ↦ rw b old | inr b ↦ rw b (omega arith) ]

      there : name_state (put st dep.name.id (visit db flags dep)) dep.name.id ≡ visit db flags dep
      there =
          get_or-set st.names dep.name.id dep.name.id _ empty n
          ∙ ap (λ b. if b then visit db flags dep else name_state st dep.name.id)
              (==_refl dep.name.id)

  -- What apk_state_prune_dependency does to the names' states, on all its branches: they stay those
  -- of their own packages, no more of them are unsettled, and where the result is above zero the
  -- dependency's name is one of the solver's and is left open, to be locked. The database's names
  -- hold packages of their own.
  pub prune_dependency-IsPruned :
      (st : SolverState) (dep : Dependency)
      → IsDb db num
      → IsNames db num st.names
      → IsPruned st.names dep
          (prune_dependency db flags st dep).0
          (prune_dependency db flags st dep).1
  unfolding prune_dependency
  prune_dependency-IsPruned st dep d h = elim (Bool-cases (leb (num_names st) dep.name.id)) [
    | inl e ↦ rw e (unchanged st dep (neg 1) h (λ q. cc))
    | inr e ↦
        rw e (state_IsPruned st dep (name_state st dep.name.id) d h (ground (arith, h.size)) refl)
  ]
