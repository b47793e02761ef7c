-- ===== src/State/Lock/Sound.antt =====
-- About what the solver of apk-tools/src/state.c leaves when it succeeds, for packages that have no
-- conflict among their dependencies.
use am_linux_terminal_robot.Common.{
  ℕ, ◌≡◌, ◌≢◌, refl, ap, true, false, ◌&&◌, Option, none, some, List, [], ◌∷◌, All, arith,
  Bool-cases, inl, inr, pos, ltb_ℤ,
}
use am_linux_terminal_robot.Package.Dependency.{Dependency, depmask_conflict, depmask_require}
use am_linux_terminal_robot.State.{
  Db, Flags, NameState, empty, locked, choices, SolverState, provides, ns_from_pkg_non_pending,
}
use am_linux_terminal_robot.State.Names.{is_unsettled}
use am_linux_terminal_robot.State.Prune.{name_state, put, prune_dependency}
use am_linux_terminal_robot.State.Prune.Sound.{
  state_in, Keeps, Adds, Fits, prune_dependency-IsSound,
}
use am_linux_terminal_robot.State.Lock.{
  Outcome, or_conflict, check_dependants, track_change, fix_package, fix_depends, lock_checked,
  lock_dependency, lock_pruned, use_choice, reinstall_broken, same_pkg, not_reinstalled,
}
use am_linux_terminal_robot.State.Lock.Selection.{choose}
use am_linux_terminal_robot.State.Lock.Member.{Holds, choose-Holds}
use am_linux_terminal_robot.State.Lock.Success.{
  IsMet, IsComplete, HasNoConflicts, IsKept, Succeeds, seen_from, continue-Succeeds,
  or_conflict-Succeeds, each-Succeeds, IsTrue, steps,
}

module _ (db : Db) (flags : Flags) where
  -- A state after steps that settle no name to a package.
  pub stepped :
      (B : ℕ → Type 0) (names : List NameState) (st st1 : SolverState)
      → Keeps st.names st1.names
      → Adds st.names st1.names
      → IsKept db B names st
      → IsKept db B names st1
  stepped B names st st1 k a h = record {
    keeps = λ name pkg e. k name pkg (h.keeps name pkg e);
    complete = steps db B st.names st1.names k a h.complete;
  }

  abbrev pub IsLockedTo : ℕ → ℕ → SolverState → Type 0
  IsLockedTo name p st = state_in st.names name ≡ locked (some p) false false

  -- apk_state_lock_name, for a name that is not settled, locks it to the package.
  abbrev pub LocksSoundly : (SolverState → ℕ → Option ℕ → Outcome) → Type 1
  LocksSoundly lock =
      (B : ℕ → Type 0) (names : List NameState) (st : SolverState) (name p : ℕ)
      → IsKept db B names st
      → is_unsettled (name_state st name) ≡ true
      → Succeeds db B (IsLockedTo name p) names (lock st name (some p))

  module _ (lock : SolverState → ℕ → Option ℕ → Outcome) (locks : LocksSoundly lock)
      (B : ℕ → Type 0) (names : List NameState) where
    abbrev Meets : Dependency → SolverState → Type 0
    Meets dep st = IsMet db st.names dep

    locked-Meets :
        (st : SolverState) (dep : Dependency) (p : ℕ)
        → IsKept db B names st
        → is_unsettled (name_state st dep.name.id) ≡ true
        → provides db dep p ≡ true
        → Succeeds db B (Meets dep) names (lock st dep.name.id (some p))
    locked-Meets st dep p k u v =
        seen_from db B B (IsLockedTo dep.name.id p) (Meets dep) names names
          (lock st dep.name.id (some p)) (λ st1 k1 e. (k1, (p, (e, v))))
          (locks B names st dep.name.id p k u)

    pruned-Meets :
        (st : SolverState) (dep : Dependency) (s : NameState)
        → IsKept db B names st
        → name_state st dep.name.id ≡ s
        → Fits db dep s
        → Succeeds db B (Meets dep) names (lock_pruned db flags lock st dep.name.id s)
    pruned-Meets st dep empty k e f = absurd f
    pruned-Meets st dep (locked none pending error) k e f = absurd f
    pruned-Meets st dep (locked (some p) false error) k e f = absurd f
    pruned-Meets st dep (locked (some p) true true) k e f = absurd f
    pruned-Meets st dep (locked (some p) true false) k e f =
        locked-Meets st dep p k (ap is_unsettled e) f
    pruned-Meets st dep (choices c) k e f =
        used (choose db flags (db.entry dep.name.id).reinstall c) (
          choose-Holds (λ p. provides db dep p ≡ true) db flags (db.entry dep.name.id).reinstall c
            f)
      where
        used :
            (pkg : Option ℕ)
            → Holds (λ p. provides db dep p ≡ true) db flags (db.entry dep.name.id).reinstall pkg
            → Succeeds db B (Meets dep) names (use_choice db flags lock st dep.name.id pkg)
        used none h = λ z. cc
        used (some p) h = locked-Meets st dep p k (ap is_unsettled e) h

    pub dependency-Meets :
        (st : SolverState) (dep : Dependency)
        → dep.result_mask ≢ depmask_conflict
        → IsKept db B names st
        → Succeeds db B (Meets dep) names (lock_dependency db flags lock st dep)
    unfolding lock_dependency
    dependency-Meets st dep n k =
        let s = prune_dependency-IsSound db flags dep n st in
        let st1 = (prune_dependency db flags st dep).0 in
        let k1 = stepped B names st st1 s.keeps s.adds k in
        elim (Bool-cases (ltb_ℤ (pos 0) (prune_dependency db flags st dep).1)) [
          | inl e ↦
              rw e (pruned-Meets st1 dep (name_state st1 dep.name.id) k1 refl (s.above_fits e))
          | inr e ↦ rw e (λ z. (k1, s.zero_met z))
        ]

  abbrev pub MeetsAll : List Dependency → SolverState → Type 0
  MeetsAll deps st = All (IsMet db st.names) deps

  pub again :
      (B : ℕ → Type 0) (names : List NameState) (st : SolverState)
      → IsKept db B names st
      → IsKept db B st.names st
  again B names st k = record { keeps = λ name pkg e. e; complete = k.complete }

  -- What is kept from a state that is kept.
  pub in_two_steps :
      (B : ℕ → Type 0) (names : List NameState) (st st1 : SolverState)
      → Keeps names st.names
      → IsKept db B st.names st1
      → IsKept db B names st1
  in_two_steps B names st st1 k h = record {
    keeps = λ name pkg e. h.keeps name pkg (k name pkg e);
    complete = h.complete;
  }

  module _ (lock : SolverState → ℕ → Option ℕ → Outcome) (locks : LocksSoundly lock)
      (B : ℕ → Type 0) where
    fix_meets :
        (names : List NameState) (deps : List Dependency) (st : SolverState)
        → All (λ dep. dep.result_mask ≢ depmask_conflict) deps
        → IsKept db B names st
        → Succeeds db B (MeetsAll deps) names (fix_depends db flags lock deps st)
    unfolding fix_depends
    fix_meets names [] st n k = λ z. (k, tt)
    fix_meets names (dep ∷ deps) st n k =
        continue-Succeeds db B (λ st1. IsMet db st1.names dep) (MeetsAll (dep ∷ deps)) names
          (lock_dependency db flags lock st dep) (fix_depends db flags lock deps)
          (dependency-Meets lock locks B names st dep n.0 k)
          (λ st1 k1 m.
            seen_from db B B (MeetsAll deps) (MeetsAll (dep ∷ deps)) st1.names names
              (fix_depends db flags lock deps st1)
              (λ st2 k2 ms.
                (in_two_steps B names st1 st2 k1.keeps k2, (still_met st1 st2 k2 m, ms)))
              (fix_meets st1.names deps st1 n.1 (again B names st1 k1)))
      where
        still_met :
            (st1 st2 : SolverState)
            → IsKept db B st1.names st2
            → IsMet db st1.names dep
            → IsMet db st2.names dep
        still_met st1 st2 k2 (p, (e, v)) = (p, (k2.keeps dep.name.id (some p) e, v))

    require_allowed : depmask_require ≢ depmask_conflict
    require_allowed e = omega (arith, e)

    dependants_succeed :
        (names : List NameState) (name p : ℕ) (oldpkg : Option ℕ) (st : SolverState)
        → IsKept db B names st
        → Succeeds db B (IsTrue db) names (check_dependants db flags lock name oldpkg (some p) st)
    unfolding reinstall_broken
    dependants_succeed names name p none st k = λ z. (k, tt)
    dependants_succeed names name p (some oldpkg) st k =
        each-Succeeds db B names (reinstall_broken db flags lock) name (db.entry name).rdepends st
          (λ st1 pkg dep k1.
            seen_from db B B (λ st2. IsMet db st2.names _) (IsTrue db) names names
              (reinstall_broken db flags lock st1 pkg dep) (λ st2 k2 m. (k2, tt))
              (dependency-Meets lock locks B names st1 _ require_allowed k1))
          k

    track-Succeeds :
        (names : List NameState) (deps : List Dependency) (oldpkg newpkg : Option ℕ)
        (st : SolverState)
        → IsKept db B names st
        → MeetsAll deps st
        → Succeeds db B (MeetsAll deps) names (track_change db oldpkg newpkg st)
    track-Succeeds names deps oldpkg newpkg st k m =
        elim (Bool-cases (same_pkg oldpkg newpkg && not_reinstalled db newpkg)) [
          | inl e ↦ rw e (λ z. (k, m))
          | inr e ↦ rw e (λ z. (record { keeps = k.keeps; complete = k.complete }, m))
        ]

    pub checked-Succeeds :
        (st : SolverState) (name p : ℕ) (oldpkg : Option ℕ)
        → HasNoConflicts db
        → IsComplete db B (put st name (ns_from_pkg_non_pending (some p))).names
        → Succeeds db B
            (MeetsAll (db.candidate p).depends)
            (put st name (ns_from_pkg_non_pending (some p))).names
            (lock_checked db flags lock st name oldpkg (some p))
    unfolding lock_checked
    checked-Succeeds st name p oldpkg n c =
        let st0 = put st name (ns_from_pkg_non_pending (some p)) in
        or_conflict-Succeeds db B (IsTrue db) (MeetsAll (db.candidate p).depends) st0.names (some p)
          (check_dependants db flags lock name oldpkg (some p) st0)
          (λ st1.
            or_conflict db (some p) (fix_package db flags lock (some p) st1)
              (track_change db oldpkg (some p)))
          (dependants_succeed st0.names name p oldpkg st0
            (record { keeps = λ name pkg e. e; complete = c }))
          (λ st1 k1 _.
            or_conflict-Succeeds db B (MeetsAll (db.candidate p).depends)
              (MeetsAll (db.candidate p).depends) st0.names (some p)
              (fix_package db flags lock (some p) st1) (track_change db oldpkg (some p))
              (fix_meets st0.names (db.candidate p).depends st1 (n p) k1)
              (λ st2 k2 m. track-Succeeds st0.names _ oldpkg (some p) st2 k2 m))
