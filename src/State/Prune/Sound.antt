-- ===== src/State/Prune/Sound.antt =====
-- About the results of apk_state_prune_dependency in apk-tools/src/state.c.
use mathlib.Core.List.Permᴰ
use mathlib.Core.Path.{subst}
use am_linux_terminal_robot.Common.{
  ℕ, zero, suc, ◌<◌, ◌≡◌, ◌≢◌, refl, sym, ap, Bool, true, false, not, ◌&&◌, Option, none, some,
  List, [], ◌∷◌, ◌==◌, leb, length, All, get_or, set, arith, Bool-cases, inl, inr, ℤ, pos, neg,
  ltb_ℤ,
}
use am_linux_terminal_robot.Hash.{length-set}
use am_linux_terminal_robot.Package.Dependency.{Dependency, depmask_conflict}
use am_linux_terminal_robot.State.{
  Db, Flags, NameState, empty, locked, choices, SolverState, num_names, provides, pkg_available,
  ns_from_pkg, ns_from_pkg_non_pending,
}
use am_linux_terminal_robot.State.Names.{is_unsettled}
use am_linux_terminal_robot.State.Choices.{ns_from_choices}
use am_linux_terminal_robot.State.Choices.Filter.{kept, prune_choices-kept, All-perm}
use am_linux_terminal_robot.State.Prune.{
  name_state, put, when_pending, prune_locked, prune_left, prune_visited, prune_state, visit,
  prune_dependency,
}

abbrev pub state_in : List NameState → ℕ → NameState
state_in names name = get_or names name empty

-- What is settled in one state of the names is as it was in another.
abbrev pub Keeps : List NameState → List NameState → Type 0
Keeps names names' =
    (name : ℕ) (pkg : Option ℕ)
    → state_in names name ≡ locked pkg false false
    → state_in names' name ≡ locked pkg false false

pub set-Keeps :
    (names : List NameState) (i : ℕ) (s : NameState)
    → is_unsettled (state_in names i) ≡ true
    → Keeps names (set names i s)
set-Keeps [] i s u name pkg e = e
set-Keeps (x ∷ names) zero s u zero pkg e = absurd (cc (u, ap is_unsettled e))
set-Keeps (x ∷ names) zero s u (suc name) pkg e = e
set-Keeps (x ∷ names) (suc i) s u zero pkg e = e
set-Keeps (x ∷ names) (suc i) s u (suc name) pkg e = set-Keeps names i s u name pkg e

-- A name that is settled to a package.
abbrev is_held : NameState → Bool
is_held empty = false
is_held (locked none pending error) = false
is_held (locked (some pkg) pending error) = not pending && not error
is_held (choices c) = false

-- No name is settled to a package that was not.
abbrev pub Adds : List NameState → List NameState → Type 0
Adds names names' =
    (name pkg : ℕ)
    → state_in names' name ≡ locked (some pkg) false false
    → state_in names name ≡ locked (some pkg) false false

set-Adds :
    (names : List NameState) (i : ℕ) (s : NameState)
    → is_held s ≡ false
    → Adds names (set names i s)
set-Adds [] i s u name pkg e = e
set-Adds (x ∷ names) zero s u zero pkg e = absurd (cc (u, ap is_held e))
set-Adds (x ∷ names) zero s u (suc name) pkg e = e
set-Adds (x ∷ names) (suc i) s u zero pkg e = e
set-Adds (x ∷ names) (suc i) s u (suc name) pkg e = set-Adds names i s u name pkg e

choices_open : (c : Option (List ℕ)) → is_held (ns_from_choices c) ≡ false
choices_open none = refl
choices_open (some c) = refl

pub set_there :
    (names : List NameState) (i : ℕ) (s : NameState)
    → i < length names
    → state_in (set names i s) i ≡ s
set_there [] i s l = absurd (omega arith)
set_there (x ∷ names) zero s l = refl
set_there (x ∷ names) (suc i) s l = set_there names i s (omega arith)

-- What is kept passes the test.
All-passing : (test : ℕ → Bool) (ps : List ℕ) → All (λ p. test p ≡ true) (kept test ps)
unfolding kept
All-passing test [] = tt
All-passing test (p ∷ ps) = elim (Bool-cases (test p)) [
  | inl e ↦ rw (e, kept) (e, All-passing test ps)
  | inr e ↦ rw (e, kept) (All-passing test ps)
]

module _ (db : Db) where
  -- A dependency that is met: its name is settled to a package that provides it.
  abbrev pub IsMetBy : List NameState → Dependency → ℕ → Type 0
  IsMetBy names dep pkg =
      (state_in names dep.name.id ≡ locked (some pkg) false false) × (provides db dep pkg ≡ true)

  -- What a name that is open may be locked to provides the dependency.
  abbrev pub Fits : Dependency → NameState → Type 0
  Fits dep empty = ⊥
  Fits dep (locked (some pkg) true false) = provides db dep pkg ≡ true
  Fits dep (locked (some pkg) true true) = ⊥
  Fits dep (locked (some pkg) false error) = ⊥
  Fits dep (locked none pending error) = ⊥
  Fits dep (choices c) = All (λ p. provides db dep p ≡ true) c

  module _ (flags : Flags) (dep : Dependency) (requires : dep.result_mask ≢ depmask_conflict) where
    -- What is settled stays, and no name is settled to another package; a result of zero says that the dependency is met, and one above zero
    -- that its name is open, with nothing but packages that provide it.
    pub record IsSound (names : List NameState) (st : SolverState) (r : ℤ) : Type 0 where
      pub keeps : Keeps names st.names
      pub adds : Adds names st.names
      pub zero_met : r ≡ pos 0 → (pkg : ℕ) × IsMetBy st.names dep pkg
      pub above_fits : ltb_ℤ (pos 0) r ≡ true → Fits dep (name_state st dep.name.id)

    fails_soundly :
        (names : List NameState) (st : SolverState)
        → Keeps names st.names
        → Adds names st.names
        → IsSound names st (neg 1)
    fails_soundly names st k a = record {
      keeps = k;
      adds = a;
      zero_met = λ e. cc;
      above_fits = λ e. cc;
    }

    stays_soundly : (st : SolverState) → IsSound st.names st (neg 1)
    stays_soundly st = fails_soundly st.names st (λ name pkg e. e) (λ name pkg e. e)

    not_conflict : (dep.result_mask == depmask_conflict) ≡ false
    not_conflict = ground (arith, requires)

    pending-IsSound :
        (st : SolverState) (pkg : ℕ) (pending : Bool)
        → name_state st dep.name.id ≡ locked (some pkg) pending false
        → provides db dep pkg ≡ true
        → IsSound st.names (when_pending db flags pending st).0 (when_pending db flags pending st).1
    pending-IsSound st pkg true e p = record {
      keeps = λ name pkg e. e;
      adds = λ name pkg e. e;
      zero_met = λ e. cc;
      above_fits = λ _. subst (Fits dep) (sym e) p;
    }
    pending-IsSound st pkg false e p = record {
      keeps = λ name pkg e. e;
      adds = λ name pkg e. e;
      zero_met = λ _. (pkg, (e, p));
      above_fits = λ e. cc;
    }

    locked-IsSound :
        (st : SolverState) (pkg : Option ℕ) (pending error : Bool)
        → name_state st dep.name.id ≡ locked pkg pending error
        → IsSound st.names
            (prune_locked db flags st dep pkg pending error).0
            (prune_locked db flags st dep pkg pending error).1
    unfolding prune_locked
    locked-IsSound st pkg pending true e = stays_soundly st
    locked-IsSound st none true false e = rw not_conflict (
        fails_soundly st.names _
          (set-Keeps st.names dep.name.id (ns_from_pkg_non_pending none) (ap is_unsettled e))
          (set-Adds st.names dep.name.id (ns_from_pkg_non_pending none) refl))
    locked-IsSound st none false false e = rw not_conflict (stays_soundly st)
    locked-IsSound st (some pkg) pending false e = elim (Bool-cases (provides db dep pkg)) [
      | inl p ↦ rw p (pending-IsSound st pkg pending e p)
      | inr p ↦ rw p (stays_soundly st)
    ]

    left-IsSound :
        (st : SolverState) (c : List ℕ)
        → dep.name.id < num_names st
        → is_unsettled (name_state st dep.name.id) ≡ true
        → All (λ p. provides db dep p ≡ true) c
        → IsSound st.names
            (prune_left db flags st dep.name.id c).0
            (prune_left db flags st dep.name.id c).1
    unfolding prune_left
    left-IsSound st [] l u a =
        fails_soundly st.names _ (set-Keeps st.names dep.name.id (ns_from_pkg none) u)
          (set-Adds st.names dep.name.id (ns_from_pkg none) refl)
    left-IsSound st (p ∷ []) l u a = elim (Bool-cases (pkg_available db flags p)) [
      | inl b ↦ rw b (record {
        keeps = set-Keeps st.names dep.name.id (ns_from_pkg (some p)) u;
        adds = set-Adds st.names dep.name.id (ns_from_pkg (some p)) refl;
        zero_met = λ e. cc;
        above_fits = λ _. subst (Fits dep) (sym (set_there st.names dep.name.id _ l)) a.0;
      })
      | inr b ↦ rw b (
          fails_soundly st.names _ (set-Keeps st.names dep.name.id (ns_from_pkg none) u)
            (set-Adds st.names dep.name.id (ns_from_pkg none) refl))
    ]
    left-IsSound st (p ∷ q ∷ ps) l u a = record {
      keeps = set-Keeps st.names dep.name.id (choices (p ∷ q ∷ ps)) u;
      adds = set-Adds st.names dep.name.id (choices (p ∷ q ∷ ps)) refl;
      zero_met = λ e. cc;
      above_fits = λ _. subst (Fits dep) (sym (set_there st.names dep.name.id _ l)) a;
    }

    visited-IsSound :
        (st : SolverState) (s : NameState)
        → dep.name.id < num_names st
        → name_state st dep.name.id ≡ s
        → IsSound st.names (prune_visited db flags st dep s).0 (prune_visited db flags st dep s).1
    unfolding prune_visited
    visited-IsSound st empty l e = stays_soundly st
    visited-IsSound st (locked pkg pending error) l e = locked-IsSound st pkg pending error e
    visited-IsSound st (choices c) l e = left-IsSound st _ l (ap is_unsettled e) (
        All-perm (λ p. provides db dep p ≡ true)
          (Permᴰ.symm (prune_choices-kept (provides db dep) c)) (All-passing (provides db dep) c))

    after_visit :
        (names names' : List NameState) (st : SolverState) (r : ℤ)
        → Keeps names names'
        → Adds names names'
        → IsSound names' st r
        → IsSound names st r
    after_visit names names' st r k a h = record {
      adds = λ name pkg e. a name pkg (h.adds name pkg e);
      keeps = λ name pkg e. h.keeps name pkg (k name pkg e);
      zero_met = h.zero_met;
      above_fits = h.above_fits;
    }

    state-IsSound :
        (st : SolverState) (s : NameState)
        → dep.name.id < num_names st
        → name_state st dep.name.id ≡ s
        → IsSound st.names (prune_state db flags st dep s).0 (prune_state db flags st dep s).1
    state-IsSound st (locked pkg pending error) l e =
        visited-IsSound st (locked pkg pending error) l e
    state-IsSound st (choices c) l e = visited-IsSound st (choices c) l e
    state-IsSound st empty l e =
        let s = visit db flags dep in
        let st1 = put st dep.name.id s in
        rw not_conflict (
          after_visit st.names st1.names _ _ (set-Keeps st.names dep.name.id s (ap is_unsettled e))
            (set-Adds st.names dep.name.id s (choices_open _))
            (visited-IsSound st1 s (rw (length-set st.names dep.name.id s) l)
              (set_there st.names dep.name.id s l)))

    -- A call of apk_state_prune_dependency for a dependency that is no conflict leaves all settled
    -- names as they are and settles none to a package; if it returns zero, the dependency is met, and if it returns more, the
    -- name is open with only packages that provide the dependency.
    pub prune_dependency-IsSound :
        (st : SolverState)
        → IsSound st.names (prune_dependency db flags st dep).0 (prune_dependency db flags st dep).1
    unfolding prune_dependency
    prune_dependency-IsSound st = elim (Bool-cases (leb (num_names st) dep.name.id)) [
      | inl e ↦ rw e (stays_soundly st)
      | inr e ↦ rw e (state-IsSound st (name_state st dep.name.id) (ground arith) refl)
    ]
