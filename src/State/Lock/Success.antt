-- ===== src/State/Lock/Success.antt =====
-- About calls of the solver of apk-tools/src/state.c that succeed: what is settled stays, and packages
-- that are settled keep their dependencies met.
use am_linux_terminal_robot.Common.{
  ℕ, ◌≡◌, ◌≢◌, ap, ◌⊎◌, true, false, Option, none, some, List, [], ◌∷◌, leb, All, arith, Bool-cases,
  inl, inr, ℤ, pos, negsuc, eqb_ℤ,
}
use am_linux_terminal_robot.Package.Dependency.{Dependency, depmask_conflict}
use am_linux_terminal_robot.State.{Db, NameState, locked, SolverState, num_names}
use am_linux_terminal_robot.State.Prune.{name_state}
use am_linux_terminal_robot.State.Prune.Sound.{state_in, Keeps, Adds, IsMetBy}
use am_linux_terminal_robot.State.Lock.{
  Outcome, returns, crashes, out_of_fuel, and_then, call_cb, call_if_broke, for_each_broken,
  or_conflict, failed, record_conflict, continue_with, failing, checked_pkg,
}

module _ (db : Db) where
  abbrev pub IsMet : List NameState → Dependency → Type 0
  IsMet names dep = (pkg : ℕ) × IsMetBy db names dep pkg

  -- The packages that the names are settled to have all their dependencies met, but those of the
  -- names in B.
  abbrev pub IsComplete : (ℕ → Type 0) → List NameState → Type 0
  IsComplete B names =
      (name pkg : ℕ)
      → state_in names name ≡ locked (some pkg) false false
      → B name ⊎ All (IsMet names) (db.candidate pkg).depends

  -- No package has a conflict among its dependencies.
  abbrev pub HasNoConflicts : Type 0
  HasNoConflicts =
      (pkg : ℕ) → All (λ dep. dep.result_mask ≢ depmask_conflict) (db.candidate pkg).depends

  pub still_holds :
      (names names' : List NameState) (deps : List Dependency)
      → Keeps names names'
      → All (IsMet names) deps
      → All (IsMet names') deps
  still_holds names names' [] k h = tt
  still_holds names names' (dep ∷ deps) k h =
      let (pkg, (e, p)) = h.0 in
      ((pkg, (k dep.name.id (some pkg) e, p)), still_holds names names' deps k h.1)

  -- A step from one state of the names to another that settles no name to a package.
  pub steps :
      (B : ℕ → Type 0) (names names' : List NameState)
      → Keeps names names'
      → Adds names names'
      → IsComplete B names
      → IsComplete B names'
  steps B names names' k a c name pkg e = elim (c name pkg (a name pkg e)) [
    | inl b ↦ inl b
    | inr m ↦ inr (still_holds names names' _ k m)
  ]

  -- The state that is returned with a result of zero: what was settled is as it was, and
  -- completeness is kept.
  pub record IsKept (B : ℕ → Type 0) (names : List NameState) (st : SolverState) : Type 0 where
    pub keeps : Keeps names st.names
    pub complete : IsComplete B st.names

  -- Success leads from a state to one that is kept, and meets P. Of a failure nothing is said.
  abbrev pub Succeeds : (ℕ → Type 0) → (SolverState → Type 0) → List NameState → Outcome → Type 0
  Succeeds B P names (returns st r) = r ≡ pos 0 → IsKept B names st × P st
  Succeeds B P names crashes = Unit
  Succeeds B P names out_of_fuel = Unit

  pub is_zero : (r : ℤ) → eqb_ℤ r (pos 0) ≡ true → r ≡ pos 0
  is_zero (pos n) e = ap pos (ground (arith, e))
  is_zero (negsuc n) e = absurd (ground (arith, e))

  not_zero : (r : ℤ) → eqb_ℤ r (pos 0) ≡ false → r ≢ pos 0
  not_zero r e z = absurd (cc (e, ap (λ r. eqb_ℤ r (pos 0)) z))

  -- An outcome that succeeds from one state of the names, seen from another one.
  pub seen_from :
      (B C : ℕ → Type 0) (P Q : SolverState → Type 0) (names names' : List NameState) (o : Outcome)
      → ((st : SolverState) → IsKept B names st → P st → IsKept C names' st × Q st)
      → Succeeds B P names o
      → Succeeds C Q names' o
  seen_from B C P Q names names' crashes f h = tt
  seen_from B C P Q names names' out_of_fuel f h = tt
  seen_from B C P Q names names' (returns st r) f h = λ z. f st (h z).0 (h z).1

  module _ (B : ℕ → Type 0) (P Q : SolverState → Type 0) (names : List NameState) where
    abbrev Goes : (SolverState → Outcome) → Type 0
    Goes k = (st : SolverState) → IsKept B names st → P st → Succeeds B Q names (k st)

    pub and_then-Succeeds :
        (o : Outcome) (k : SolverState → Outcome)
        → Succeeds B P names o
        → Goes k
        → Succeeds B Q names (and_then o k)
    and_then-Succeeds crashes k h g = tt
    and_then-Succeeds out_of_fuel k h g = tt
    and_then-Succeeds (returns st r) k h g = elim (Bool-cases (eqb_ℤ r (pos 0))) [
      | inl e ↦ (let s = h (is_zero r e) in rw e (g st s.0 s.1))
      | inr e ↦ rw e (λ z. absurd (not_zero r e z))
    ]

    failing-Succeeds : (o : Outcome) → Succeeds B Q names (failing o)
    failing-Succeeds crashes = tt
    failing-Succeeds out_of_fuel = tt
    failing-Succeeds (returns st r) = λ z. cc

    pub continue-Succeeds :
        (o : Outcome) (k : SolverState → Outcome)
        → Succeeds B P names o
        → Goes k
        → Succeeds B Q names (continue_with o k)
    continue-Succeeds crashes k h g = tt
    continue-Succeeds out_of_fuel k h g = tt
    continue-Succeeds (returns st r) k h g = elim (Bool-cases (eqb_ℤ r (pos 0))) [
      | inl e ↦ (let s = h (is_zero r e) in rw e (g st s.0 s.1))
      | inr e ↦ rw e (failing-Succeeds (k st))
    ]

    failed-Succeeds :
        (r : ℤ) (st : Option SolverState) → r ≢ pos 0 → Succeeds B Q names (failed r st)
    failed-Succeeds r none n = tt
    failed-Succeeds r (some st) n = λ z. absurd (n z)

    pub or_conflict-Succeeds :
        (newpkg : Option ℕ) (o : Outcome) (k : SolverState → Outcome)
        → Succeeds B P names o
        → Goes k
        → Succeeds B Q names (or_conflict db newpkg o k)
    or_conflict-Succeeds newpkg crashes k h g = tt
    or_conflict-Succeeds newpkg out_of_fuel k h g = tt
    or_conflict-Succeeds newpkg (returns st r) k h g = elim (Bool-cases (eqb_ℤ r (pos 0))) [
      | inl e ↦ (let s = h (is_zero r e) in rw e (g st s.0 s.1))
      | inr e ↦ rw e (failed-Succeeds r (record_conflict db st newpkg) (not_zero r e))
    ]

  abbrev pub IsTrue : SolverState → Type 0
  IsTrue st = Unit

  module _ (B : ℕ → Type 0) (names : List NameState)
      (cb : SolverState → ℕ → Dependency → Outcome) where
    abbrev pub CallsSucceed : Type 0
    CallsSucceed =
        (st : SolverState) (pkg : ℕ) (dep : Dependency)
        → IsKept B names st
        → Succeeds B IsTrue names (cb st pkg dep)

    call-Succeeds :
        (st : SolverState) (pkg : ℕ) (dep : Option Dependency)
        → CallsSucceed
        → IsKept B names st
        → Succeeds B IsTrue names (call_cb db cb st pkg dep)
    call-Succeeds st pkg none c k = λ z. (k, tt)
    call-Succeeds st pkg (some dep) c k = c st pkg dep k

    broke-Succeeds :
        (st : SolverState) (name : ℕ) (pkg : Option ℕ)
        → CallsSucceed
        → IsKept B names st
        → Succeeds B IsTrue names (call_if_broke db cb st name pkg)
    broke-Succeeds st name none c k = λ z. (k, tt)
    broke-Succeeds st name (some pkg) c k = call-Succeeds st pkg _ c k

    pub each-Succeeds :
        (name : ℕ) (rdepends : List ℕ) (st : SolverState)
        → CallsSucceed
        → IsKept B names st
        → Succeeds B IsTrue names (for_each_broken db cb name rdepends st)
    unfolding for_each_broken
    each-Succeeds name [] st c k = λ z. (k, tt)
    each-Succeeds name (name0 ∷ rdepends) st c k = elim (Bool-cases (leb (num_names st) name0)) [
      | inl e ↦ rw e tt
      | inr e ↦ rw e (
          and_then-Succeeds B IsTrue IsTrue names
            (call_if_broke db cb st name (checked_pkg db name0 (name_state st name0)))
            (for_each_broken db cb name rdepends)
            (broke-Succeeds st name (checked_pkg db name0 (name_state st name0)) c k)
            (λ st1 k1 _. each-Succeeds name rdepends st1 c k1))
    ]
