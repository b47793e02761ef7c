-- ===== src/State/Clean/Returns.antt =====
-- About the outcome of apk_state_autoclean in apk-tools/src/state.c.
use mathlib.Core.Path.{subst}
use am_linux_terminal_robot.Common.{
  ℕ, ◌+◌, ◌*◌, ◌<◌, ◌≤◌, ◌≡◌, refl, sym, ◌∙◌, Bool, false, ◌||◌, Option, none, some, List, [], ◌∷◌,
  leb, All, arith, Bool-cases, inl, inr, ℤ, pos, eqb_ℤ,
}
use am_linux_terminal_robot.Hash.{length-set, set_back}
use am_linux_terminal_robot.Package.Dependency.{Dependency}
use am_linux_terminal_robot.State.{
  Db, Flags, empty, SolverState, num_names, ns_from_pkg, ns_from_pkg_non_pending,
}
use am_linux_terminal_robot.State.Names.{count-le-length, unsettled, is_live, live, IsDb, IsNames}
use am_linux_terminal_robot.State.Prune.{name_state, put}
use am_linux_terminal_robot.State.Lock.{
  Outcome, returns, crashes, out_of_fuel, and_then, call_cb, call_if_broke, for_each_broken,
  lock_name, lock_fuel, checked_pkg,
}
use am_linux_terminal_robot.State.Lock.Loops.{IsBelow, Ends}
use am_linux_terminal_robot.State.Lock.Deletion.{
  IsZero, settles, weaken, put_pkg, lock_name-Deletes,
}
use am_linux_terminal_robot.State.Lock.Returns.{Returns, ends_returns}
use am_linux_terminal_robot.State.Clean.{
  fail_if_broke, is_locked, remove_unneeded, clean_name, autoclean,
}

module _ (db : Db) (flags : Flags) where
  -- The state is returned as it is.
  abbrev Same : SolverState → Outcome → Type 0
  Same st o = (r : ℤ) × (o ≡ returns st r)

  call-Same :
      (st : SolverState) (pkg : ℕ) (dep : Option Dependency)
      → Same st (call_cb db fail_if_broke st pkg dep)
  call-Same st pkg none = (pos 0, refl)
  call-Same st pkg (some dep) = (pos 1, refl)

  broke-Same :
      (st : SolverState) (name : ℕ) (pkg : Option ℕ)
      → Same st (call_if_broke db fail_if_broke st name pkg)
  broke-Same st name none = (pos 0, refl)
  broke-Same st name (some pkg) = call-Same st pkg _

  and_then-Same :
      (st : SolverState) (o : Outcome) (k : SolverState → Outcome)
      → Same st o
      → Same st (k st)
      → Same st (and_then o k)
  and_then-Same st o k (r, e) h =
      rw e (elim (Bool-cases (eqb_ℤ r (pos 0))) [ inl z ↦ rw z h | inr z ↦ rw z (r, refl) ])

  check-Same :
      (name : ℕ) (rdepends : List ℕ) (st : SolverState)
      → All (λ n. n < num_names st) rdepends
      → Same st (for_each_broken db fail_if_broke name rdepends st)
  unfolding for_each_broken
  check-Same name [] st a = (pos 0, refl)
  check-Same name (name0 ∷ rdepends) st a = rw inside (
      and_then-Same st
        (call_if_broke db fail_if_broke st name (checked_pkg db name0 (name_state st name0)))
        (for_each_broken db fail_if_broke name rdepends) (broke-Same st name _)
        (check-Same name rdepends st a.1))
    where
      inside : leb (num_names st) name0 ≡ false
      inside = ground (arith, a.0)

  module _ (num u : ℕ) (d : IsDb db num) where
    abbrev AllBelow : SolverState → Type 0
    AllBelow st = IsBelow db num u num st

    -- A name is removed.
    removed-Ends :
        (st : SolverState) (name : ℕ)
        → AllBelow st
        → name < num
        → Ends db num IsZero u num (lock_name db flags (2 * num + 2) st name none)
    removed-Ends st name b l =
        let s = settles db flags num st name none b.holds l in
        let h = put_pkg db flags num st name none in
        let c = count-le-length is_live h.names in
        let n = length-set st.names name (ns_from_pkg_non_pending none) in
        let v : live h.names ≤ num = omega (arith, c, n, b.holds.size) in
        weaken db flags num IsZero IsZero _ _ u num _ (λ r q. q) (omega (arith, s, b.unsettled_le))
          v (lock_name-Deletes db flags num (2 * num + 2) d st name b.holds l (omega (arith, v)))

    unneeded-Ends :
        (st : SolverState) (name : ℕ) (o : Outcome)
        → AllBelow st
        → name < num
        → Same (put st name (ns_from_pkg none)) o
        → Ends db num IsZero u num
            (remove_unneeded db flags (2 * num + 2) name (name_state st name) o)
    unneeded-Ends st name o b l (r, e) =
        let back = set_back st.names name (ns_from_pkg none) empty in
        let st1 = put (put st name (ns_from_pkg none)) name (name_state st name) in
        let b1 : AllBelow st1 = record {
          holds = subst (IsNames db num) (sym back) b.holds;
          unsettled_le = subst (λ ns. unsettled ns ≤ u) (sym back) b.unsettled_le;
          live_le = subst (λ ns. live ns ≤ num) (sym back) b.live_le;
        } in
        rw e (elim (Bool-cases (eqb_ℤ r (pos 0))) [
          | inl z ↦ rw z (removed-Ends st1 name b1 l)
          | inr z ↦ rw z (b1, refl)
        ])

    name-Ends :
        (st : SolverState) (name : ℕ)
        → AllBelow st
        → name < num
        → Ends db num IsZero u num (clean_name db flags (2 * num + 2) st name)
    name-Ends st name b l =
        rw inside (elim (Bool-cases (is_locked (name_state st name) || toplevel)) [
          | inl e ↦ rw e (b, refl)
          | inr e ↦ rw e (
              unneeded-Ends st name _ b l
                (check-Same name (db.entry name).rdepends (put st name (ns_from_pkg none)) below))
        ])
      where
        toplevel : Bool
        toplevel = let e = db.entry name in e.toplevel

        inside : leb (num_names st) name ≡ false
        inside = ground (arith, l, b.holds.size)

        below : All (λ n. n < num_names (put st name (ns_from_pkg none))) (db.entry name).rdepends
        below =
            subst (λ m. All (λ n. n < m) (db.entry name).rdepends)
              (sym (length-set st.names name (ns_from_pkg none) ∙ b.holds.size))
              (d.rdepends_below name)

    clean-Ends :
        (deps : List Dependency) (st : SolverState)
        → AllBelow st
        → All (λ (dep : Dependency). dep.name.id < num) deps
        → Ends db num IsZero u num (autoclean db flags (2 * num + 2) deps st)
    unfolding autoclean
    clean-Ends [] st b a = (b, refl)
    clean-Ends (dep ∷ deps) st b a =
        zero_then (clean_name db flags (2 * num + 2) st dep.name.id)
          (autoclean db flags (2 * num + 2) deps) (name-Ends st dep.name.id b a.0)
          (λ st1 b1. clean-Ends deps st1 b1 a.1)
      where
        zero_then :
            (o : Outcome) (k : SolverState → Outcome)
            → Ends db num IsZero u num o
            → ((st : SolverState) → AllBelow st → Ends db num IsZero u num (k st))
            → Ends db num IsZero u num (and_then o k)
        zero_then crashes k h g = h
        zero_then out_of_fuel k h g = h
        zero_then (returns st r) k h g = rw h.1 (g st h.0)

  -- apk_state_autoclean returns zero, whatever the dependencies of the package, if their names are
  -- among the solver's, the names of the database and of the state hold packages of their own, and
  -- the names that depend on a name of the database are names of the solver, with ids below their
  -- number.
  pub autoclean-Returns :
      (deps : List Dependency) (st : SolverState)
      → IsDb db (num_names st)
      → IsNames db (num_names st) st.names
      → All (λ (dep : Dependency). dep.name.id < num_names st) deps
      → Returns db flags st IsZero (autoclean db flags (lock_fuel st) deps st)
  autoclean-Returns deps st d h a =
      ends_returns db flags st IsZero (unsettled st.names) (num_names st) _ (omega arith) (
        clean-Ends (num_names st) (unsettled st.names) d deps st
          (record {
            holds = h;
            unsettled_le = omega arith;
            live_le = omega (arith, count-le-length is_live st.names);
          })
          a)
