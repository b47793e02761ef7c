-- ===== src/State/Lock/Ending.antt =====
-- About the calls of the solver of apk-tools/src/state.c, and the fuel that is enough for them.
use mathlib.Core.Path.{subst}
use am_linux_terminal_robot.Common.{
  ℕ, zero, suc, ◌+◌, ◌<◌, ◌≤◌, ◌≡◌, refl, sym, ap, true, false, Option, none, some, List, [], ◌∷◌,
  leb, arith, Bool-cases, inl, inr, ℤ, pos, eqb_ℤ, ltb_ℤ,
}
use am_linux_terminal_robot.Package.Dependency.{Dependency}
use am_linux_terminal_robot.State.{
  Db, Flags, NameState, empty, locked, choices, SolverState, num_names, ns_from_pkg_non_pending,
}
use am_linux_terminal_robot.State.Names.{
  bit, count-set, count-le-length, unsettled, live, is_live, is_unsettled, IsOf, IsOwned, IsDb,
  IsNames, set-IsNames,
}
use am_linux_terminal_robot.State.Prune.{name_state, prune_dependency}
use am_linux_terminal_robot.State.Prune.Invariant.{IsOpen, prune_dependency-IsPruned}
use am_linux_terminal_robot.State.Lock.{
  Outcome, returns, crashes, out_of_fuel, or_conflict, failed, record_conflict, check_dependants,
  track_change, fix_package, fix_depends, lock_checked, lock_name, lock_dependency, lock_pruned,
  use_choice, reinstall_broken, continue_with, failing,
}
use am_linux_terminal_robot.State.Lock.Selection.{choose}
use am_linux_terminal_robot.State.Lock.Member.{Holds, choose-Holds}
use am_linux_terminal_robot.State.Lock.Loops.{IsBelow, Ends, CallsEnd, for_each_broken-Ends}
use am_linux_terminal_robot.State.Lock.Deletion.{
  IsZero, IsAny, put_pkg, put_pkg-IsBelow, settles, Deletes, track-IsBelow, weaken,
  lock_name-Deletes,
}

module _ (db : Db) (flags : Flags) (num : ℕ) where
  abbrev pub Locks : ℕ → Type 0
  Locks fuel =
      (st : SolverState) (name p : ℕ)
      → IsNames db num st.names
      → name < num
      → IsOf db name p
      → num + unsettled (put_pkg db flags num st name (some p)).names < fuel
      → Ends db num IsAny (unsettled (put_pkg db flags num st name (some p)).names) num
          (lock_name db flags fuel st name (some p))

  live-le : (names : List NameState) → IsNames db num names → live names ≤ num
  live-le names h = omega (arith, count-le-length is_live names, h.size)

  continue-Ends :
      (u v : ℕ) (o : Outcome) (k : SolverState → Outcome)
      → Ends db num IsAny u v o
      → ((st : SolverState) → IsBelow db num u v st → Ends db num IsAny u v (k st))
      → Ends db num IsAny u v (continue_with o k)
  continue-Ends u v crashes k h g = h
  continue-Ends u v out_of_fuel k h g = h
  continue-Ends u v (returns st r) k h g = elim (Bool-cases (eqb_ℤ r (pos 0))) [
    | inl e ↦ rw e (g st h.0)
    | inr e ↦ rw e (fails_too (k st) (g st h.0))
  ]
    where
      fails_too : (o : Outcome) → Ends db num IsAny u v o → Ends db num IsAny u v (failing o)
      fails_too crashes h = h
      fails_too out_of_fuel h = h
      fails_too (returns st r) h = (h.0, tt)

  -- A package that is recorded as a conflict settles its name.
  conflict-IsBelow :
      (u : ℕ) (st : SolverState) (name p : ℕ) (r : ℤ)
      → name < num
      → IsOf db name p
      → IsBelow db num u num st
      → Ends db num IsAny u num (failed r (record_conflict db st (some p)))
  unfolding record_conflict
  conflict-IsBelow u st name p r l o b =
      let below = subst (λ n. n < num) (sym o) l in
      let inside : leb (num_names st) (db.candidate p).name ≡ false =
        ground (arith, below, b.holds.size) in
      let s = locked (some p) false true in
      let h = set-IsNames db st.names (db.candidate p).name s b.holds below refl in
      rw inside (
        record {
          holds = h;
          unsettled_le = omega (
            arith,
            count-set is_unsettled st.names (db.candidate p).name s
                (omega (arith, below, b.holds.size)),
            b.unsettled_le,
          );
          live_le = live-le _ h;
        },
        tt,
      )

  or_conflict-Ends :
      (u name p : ℕ) (o : Outcome) (k : SolverState → Outcome)
      → name < num
      → IsOf db name p
      → Ends db num IsAny u num o
      → ((st : SolverState) → IsBelow db num u num st → Ends db num IsAny u num (k st))
      → Ends db num IsAny u num (or_conflict db (some p) o k)
  or_conflict-Ends u name p crashes k l i h g = h
  or_conflict-Ends u name p out_of_fuel k l i h g = h
  or_conflict-Ends u name p (returns st r) k l i h g = elim (Bool-cases (eqb_ℤ r (pos 0))) [
    | inl e ↦ rw e (g st h.0)
    | inr e ↦ rw e (conflict-IsBelow u st name p r l i h.0)
  ]

  module _ (fuel u : ℕ) (locks : Locks fuel) (deletes : Deletes db flags num fuel) (d : IsDb db num)
      (enough : num + u ≤ fuel) where
    locked-Ends :
        (st : SolverState) (name p : ℕ)
        → IsBelow db num u num st
        → name < num
        → IsOf db name p
        → bit (is_unsettled (name_state st name)) ≡ 1
        → Ends db num IsAny u num (lock_name db flags fuel st name (some p))
    locked-Ends st name p b l i o =
        let s = settles db flags num st name (some p) b.holds l in
        weaken db flags num IsAny IsAny _ num u num _ (λ r q. q) (omega (arith, s, b.unsettled_le))
          (omega arith) (locks st name p b.holds l i (omega (arith, s, o, b.unsettled_le)))

    deleted-Ends :
        (st : SolverState) (name : ℕ)
        → IsBelow db num u num st
        → name < num
        → bit (is_unsettled (name_state st name)) ≡ 1
        → Ends db num IsAny u num (lock_name db flags fuel st name none)
    deleted-Ends st name b l o =
        let s = settles db flags num st name none b.holds l in
        let n =
          live-le _ (set-IsNames db st.names name (ns_from_pkg_non_pending none) b.holds l tt) in
        weaken db flags num IsZero IsAny _ _ u num _ (λ r q. tt) (omega (arith, s, b.unsettled_le))
          n (deletes st name b.holds l (omega (arith, n, s, o, b.unsettled_le)))

    pruned-Ends :
        (st : SolverState) (name : ℕ) (s : NameState)
        → IsBelow db num u num st
        → name < num
        → name_state st name ≡ s
        → IsOpen s
        → Ends db num IsAny u num (lock_pruned db flags (lock_name db flags fuel) st name s)
    pruned-Ends st name empty b l e o = o
    pruned-Ends st name (locked pkg false error) b l e o = o
    pruned-Ends st name (locked none true error) b l e o =
        deleted-Ends st name b l (ap (λ s. bit (is_unsettled s)) e)
    pruned-Ends st name (locked (some p) true error) b l e o =
        locked-Ends st name p b l (subst (IsOwned db name) e (b.holds.holds name))
          (ap (λ s. bit (is_unsettled s)) e)
    pruned-Ends st name (choices c) b l e o = used (choose db flags (db.entry name).reinstall c) (
        choose-Holds (IsOf db name) db flags (db.entry name).reinstall c
          (subst (IsOwned db name) e (b.holds.holds name)))
      where
        used :
            (pkg : Option ℕ)
            → Holds (IsOf db name) db flags (db.entry name).reinstall pkg
            → Ends db num IsAny u num (use_choice db flags (lock_name db flags fuel) st name pkg)
        used none h = (b, tt)
        used (some p) h = locked-Ends st name p b l h (ap (λ s. bit (is_unsettled s)) e)

    pub dependency-Ends :
        (st : SolverState) (dep : Dependency)
        → IsBelow db num u num st
        → Ends db num IsAny u num (lock_dependency db flags (lock_name db flags fuel) st dep)
    unfolding lock_dependency
    dependency-Ends st dep b =
        let p = prune_dependency-IsPruned db flags num st dep d b.holds in
        let b1 : IsBelow db num u num (prune_dependency db flags st dep).0 = record {
          holds = p.holds;
          unsettled_le = omega (arith, p.unsettled_le, b.unsettled_le);
          live_le = live-le _ p.holds;
        } in
        elim (Bool-cases (ltb_ℤ (pos 0) (prune_dependency db flags st dep).1)) [
          | inl e ↦
              (let o = p.opens e in
                rw e
                  (pruned-Ends (prune_dependency db flags st dep).0 dep.name.id _ b1 o.0 refl o.1))
          | inr e ↦ rw e (b1, tt)
        ]

    reinstall_calls :
        CallsEnd db num IsAny tt u num (reinstall_broken db flags (lock_name db flags fuel))
    unfolding reinstall_broken
    reinstall_calls st pkg dep b i = dependency-Ends st _ b

    fix-Ends :
        (deps : List Dependency) (st : SolverState)
        → IsBelow db num u num st
        → Ends db num IsAny u num (fix_depends db flags (lock_name db flags fuel) deps st)
    unfolding fix_depends
    fix-Ends [] st b = (b, tt)
    fix-Ends (dep ∷ deps) st b =
        continue-Ends u num _ (fix_depends db flags (lock_name db flags fuel) deps)
          (dependency-Ends st dep b) (λ st1 b1. fix-Ends deps st1 b1)

    dependants_end :
        (st : SolverState) (name p : ℕ) (oldpkg : Option ℕ)
        → IsBelow db num u num st
        → Ends db num IsAny u num
            (check_dependants db flags (lock_name db flags fuel) name oldpkg (some p) st)
    dependants_end st name p none b = (b, tt)
    dependants_end st name p (some oldpkg) b =
        for_each_broken-Ends db num IsAny tt u num _ name (db.entry name).rdepends st
          reinstall_calls d (d.rdepends_below name) b

    checked-Ends :
        (st : SolverState) (name p : ℕ) (oldpkg : Option ℕ)
        → name < num
        → IsOf db name p
        → IsBelow db num u num (put_pkg db flags num st name (some p))
        → Ends db num IsAny u num
            (lock_checked db flags (lock_name db flags fuel) st name oldpkg (some p))
    unfolding lock_checked
    checked-Ends st name p oldpkg l i b =
        or_conflict-Ends u name p
          (check_dependants db flags (lock_name db flags fuel) name oldpkg (some p)
            (put_pkg db flags num st name (some p)))
          (λ st1.
            or_conflict db (some p) (fix_package db flags (lock_name db flags fuel) (some p) st1)
              (track_change db oldpkg (some p)))
          l i (dependants_end (put_pkg db flags num st name (some p)) name p oldpkg b)
          (λ st1 b1.
            or_conflict-Ends u name p (fix_package db flags (lock_name db flags fuel) (some p) st1)
              (track_change db oldpkg (some p)) l i (fix-Ends (db.candidate p).depends st1 b1)
              (λ st2 b2. track-IsBelow db flags num IsAny u num oldpkg (some p) st2 tt b2))

  pub lock_name-Locks : (fuel : ℕ) → IsDb db num → Locks fuel
  unfolding lock_name
  lock_name-Locks zero d st name p h l i f = absurd (omega arith)
  lock_name-Locks (suc fuel) d st name p h l i f =
      let u = unsettled (put_pkg db flags num st name (some p)).names in
      let b = put_pkg-IsBelow db flags num st name (some p) h l i in
      rw inside (
        checked-Ends fuel u (lock_name-Locks fuel d) (lock_name-Deletes db flags num fuel d) d
          (omega arith) st name p _ l i
          (record { holds = b.holds; unsettled_le = omega arith; live_le = live-le _ b.holds }))
    where
      inside : leb (num_names st) name ≡ false
      inside = ground (arith, l, h.size)
