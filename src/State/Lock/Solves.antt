-- ===== src/State/Lock/Solves.antt =====
-- About the solutions of the solver of apk-tools/src/state.c, for packages that have no conflict
-- among their dependencies.
use mathlib.Core.Path.{subst}
use am_linux_terminal_robot.Common.{
  ℕ, zero, suc, ◌≡◌, ◌≢◌, refl, sym, ap, ◌∙◌, ◌⊎◌, true, false, none, some, List, [], ◌∷◌, ◌==◌,
  leb, All, set, arith, Bool-cases, inl, inr, pos, ==_iff,
}
use am_linux_terminal_robot.Package.Dependency.{Dependency, depmask_conflict}
use am_linux_terminal_robot.State.{
  Db, Flags, NameState, empty, locked, choices, SolverState, num_names, ns_from_pkg_non_pending,
}
use am_linux_terminal_robot.State.Names.{is_unsettled}
use am_linux_terminal_robot.State.Prune.{name_state, put}
use am_linux_terminal_robot.State.Prune.Sound.{state_in, Keeps, set-Keeps, set_there}
use am_linux_terminal_robot.State.Lock.{returns, lock_name, lock_dependency, lock_fuel}
use am_linux_terminal_robot.State.Lock.Success.{
  IsMet, IsComplete, HasNoConflicts, IsKept, Succeeds, seen_from, still_holds,
}
use am_linux_terminal_robot.State.Lock.Sound.{
  LocksSoundly, IsLockedTo, MeetsAll, checked-Succeeds, dependency-Meets,
}

abbrev locked_pkg_of : NameState → ℕ
locked_pkg_of empty = 0
locked_pkg_of (choices c) = 0
locked_pkg_of (locked none pending error) = 0
locked_pkg_of (locked (some p) pending error) = p

module _ (db : Db) (flags : Flags) where
  -- A name that is being locked counts among those whose dependencies are not met yet.
  abbrev Or : (ℕ → Type 0) → ℕ → ℕ → Type 0
  Or B name n = B n ⊎ (name ≡ n)

  put-IsComplete :
      (B : ℕ → Type 0) (st : SolverState) (name p : ℕ)
      → is_unsettled (name_state st name) ≡ true
      → IsComplete db B st.names
      → IsComplete db (Or B name) (put st name (ns_from_pkg_non_pending (some p))).names
  put-IsComplete B st name p u c n pkg e = elim (Bool-cases (name == n)) [
    | inl t ↦ inl (inr ((==_iff name n).0 t))
    | inr t ↦ elim (c n pkg (elsewhere st.names name n (ns_from_pkg_non_pending (some p)) t e)) [
      | inl b ↦ inl (inl b)
      | inr m ↦ inr (
          still_holds db st.names _ _ (set-Keeps st.names name (ns_from_pkg_non_pending (some p)) u)
            m)
    ]
  ]
    where
      elsewhere :
          (names : List NameState) (i n : ℕ) (s : NameState) {x : NameState}
          → (i == n) ≡ false
          → state_in (set names i s) n ≡ x
          → state_in names n ≡ x
      elsewhere [] i n s t e = e
      elsewhere (y ∷ names) zero zero s t e = absurd (ground (arith, t))
      elsewhere (y ∷ names) zero (suc n) s t e = e
      elsewhere (y ∷ names) (suc i) zero s t e = e
      elsewhere (y ∷ names) (suc i) (suc n) s t e = elsewhere names i n s (ground (arith, t)) e

  completed :
      (B : ℕ → Type 0) (names : List NameState) (name p : ℕ)
      → IsLockedTo db flags name p
          (record { refs = 1; names = names; changes = []; conflicts = []; missing = [] })
      → All (IsMet db names) (db.candidate p).depends
      → IsComplete db (Or B name) names
      → IsComplete db B names
  completed B names name p l m c n pkg e = elim (c n pkg e) [
    | inl (inl b) ↦ inl b
    | inl (inr t) ↦ inr (
        subst (λ q. All (IsMet db names) (db.candidate q).depends)
          (ap locked_pkg_of (sym l ∙ ap (state_in names) t ∙ e)) m)
    | inr ms ↦ inr ms
  ]

  module _ (n : HasNoConflicts db) where
    pub lock_name_sound : (fuel : ℕ) → LocksSoundly db flags (lock_name db flags fuel)
    unfolding lock_name
    lock_name_sound zero B names st name p k u = tt
    lock_name_sound (suc fuel) B names st name p k u = elim (Bool-cases (leb (num_names st) name)) [
      | inl e ↦ rw e (λ z. cc)
      | inr e ↦
          (let st0 = put st name (ns_from_pkg_non_pending (some p)) in
            rw e (
              seen_from db (Or B name) B (MeetsAll db flags (db.candidate p).depends)
                (IsLockedTo db flags name p) st0.names names _
                (λ st1 k1 m.
                  let l = k1.keeps name (some p) (set_there st.names name _ (ground (arith, e))) in
                  (
                    record {
                      keeps = λ name1 pkg e1. k1.keeps name1 pkg (
                          set-Keeps st.names name (ns_from_pkg_non_pending (some p)) u name1 pkg
                            (k.keeps name1 pkg e1));
                      complete = completed B st1.names name p l m k1.complete;
                    },
                    l,
                  ))
                (checked-Succeeds db flags (lock_name db flags fuel) (lock_name_sound fuel)
                  (Or B name) st name p _ n (put-IsComplete B st name p u k.complete))))
    ]

    -- Names that are settled to packages whose dependencies are all met.
    abbrev pub IsSolved : List NameState → Type 0
    IsSolved names = IsComplete db (λ name. ⊥) names

    solved : (st : SolverState) → IsSolved st.names → IsKept db (λ name. ⊥) st.names st
    solved st s = record { keeps = λ name pkg e. e; complete = s }

    -- A call of apk_state_lock_dependency, for a dependency that is no conflict, that returns zero
    -- leaves the dependency met, what was settled before as it was, and all packages that names are
    -- settled to with their own dependencies met, if they had them met before. No package has a
    -- conflict among its dependencies.
    pub lock_dependency-Solves :
        (st : SolverState) (dep : Dependency) (st1 : SolverState)
        → dep.result_mask ≢ depmask_conflict
        → IsSolved st.names
        → lock_dependency db flags (lock_name db flags (lock_fuel st)) st dep ≡ returns st1 (pos 0)
        → (IsSolved st1.names × Keeps st.names st1.names) × IsMet db st1.names dep
    lock_dependency-Solves st dep st1 m s e =
        let f = lock_fuel st in
        let r =
          subst (Succeeds db (λ name. ⊥) (λ st1. IsMet db st1.names dep) st.names) e
            (dependency-Meets db flags (lock_name db flags f) (lock_name_sound f) (λ name. ⊥)
              st.names st dep m (solved st s))
            refl in
        ((r.0.complete, r.0.keeps), r.1)
