-- ===== src/State/Lock/Deletion.antt =====
-- About calls of apk_state_lock_name in apk-tools/src/state.c with a null package, and their fuel.
use am_linux_terminal_robot.Common.{
  ℕ, zero, suc, ◌+◌, ◌<◌, ◌≤◌, ◌≡◌, refl, ap, false, ◌&&◌, Option, none, some, leb, arith,
  Bool-cases, inl, inr, ℤ, pos,
}
use am_linux_terminal_robot.State.{Db, Flags, SolverState, num_names, ns_from_pkg_non_pending}
use am_linux_terminal_robot.State.Names.{
  bit, count-set, unsettled, live, is_live, is_unsettled, IsOwned, IsDb, IsNames, set-IsNames,
}
use am_linux_terminal_robot.State.Prune.{name_state, put}
use am_linux_terminal_robot.State.Lock.{
  Outcome, returns, crashes, out_of_fuel, or_conflict, same_pkg, check_dependants, track_change,
  not_reinstalled, fix_package, lock_checked, lock_name, delete_broken,
}
use am_linux_terminal_robot.State.Lock.Loops.{IsBelow, Ends, CallsEnd, for_each_broken-Ends}

abbrev pub IsZero : ℤ → Type 0
IsZero r = r ≡ pos 0

abbrev pub IsAny : ℤ → Type 0
IsAny r = Unit

module _ (db : Db) (flags : Flags) (num : ℕ) where
  abbrev pub put_pkg : SolverState → ℕ → Option ℕ → SolverState
  put_pkg st name newpkg = put st name (ns_from_pkg_non_pending newpkg)

  -- The state of a name that is locked to a package of its own.
  pub put_pkg-IsBelow :
      (st : SolverState) (name : ℕ) (newpkg : Option ℕ)
      → IsNames db num st.names
      → name < num
      → IsOwned db name (ns_from_pkg_non_pending newpkg)
      → IsBelow db num
          (unsettled (put_pkg st name newpkg).names)
          (live (put_pkg st name newpkg).names)
          (put_pkg st name newpkg)
  put_pkg-IsBelow st name newpkg h l o = record {
    holds = set-IsNames db st.names name _ h l o;
    unsettled_le = omega arith;
    live_le = omega arith;
  }

  pub settles :
      (st : SolverState) (name : ℕ) (newpkg : Option ℕ)
      → IsNames db num st.names
      → name < num
      → unsettled (put_pkg st name newpkg).names + bit (is_unsettled (name_state st name))
        ≡ unsettled st.names
  settles st name newpkg h l = omega (
    arith,
    count-set is_unsettled st.names name (ns_from_pkg_non_pending newpkg) (omega (arith, h.size)),
  )

  dies :
      (st : SolverState) (name : ℕ)
      → IsNames db num st.names
      → name < num
      → live (put_pkg st name none).names + bit (is_live (name_state st name)) ≡ live st.names
  dies st name h l = omega (
    arith,
    count-set is_live st.names name (ns_from_pkg_non_pending none) (omega (arith, h.size)),
  )

  -- What fuel allows a call of apk_state_lock_name with a null package: it returns zero.
  abbrev pub Deletes : ℕ → Type 0
  Deletes fuel =
      (st : SolverState) (name : ℕ)
      → IsNames db num st.names
      → name < num
      → live (put_pkg st name none).names < fuel
      → Ends db num IsZero (unsettled (put_pkg st name none).names)
          (live (put_pkg st name none).names) (lock_name db flags fuel st name none)

  pub track-IsBelow :
      (Q : ℤ → Type 0) (u v : ℕ) (oldpkg newpkg : Option ℕ) (st : SolverState)
      → Q (pos 0)
      → IsBelow db num u v st
      → Ends db num Q u v (track_change db oldpkg newpkg st)
  track-IsBelow Q u v oldpkg newpkg st q b =
      elim (Bool-cases (same_pkg oldpkg newpkg && not_reinstalled db newpkg)) [
        | inl e ↦ rw e (b, q)
        | inr e ↦
            rw e (record { holds = b.holds; unsettled_le = b.unsettled_le; live_le = b.live_le }, q)
      ]

  zero_goes_on :
      (newpkg : Option ℕ) (Q : ℤ → Type 0) (u v : ℕ) (o : Outcome) (k : SolverState → Outcome)
      → Ends db num IsZero u v o
      → ((st : SolverState) → IsBelow db num u v st → Ends db num Q u v (k st))
      → Ends db num Q u v (or_conflict db newpkg o k)
  zero_goes_on newpkg Q u v crashes k h g = h
  zero_goes_on newpkg Q u v out_of_fuel k h g = h
  zero_goes_on newpkg Q u v (returns st r) k h g = rw h.1 (g st h.0)

  pub weaken :
      (Q R : ℤ → Type 0) (u v u' v' : ℕ) (o : Outcome)
      → ((r : ℤ) → Q r → R r)
      → u ≤ u'
      → v ≤ v'
      → Ends db num Q u v o
      → Ends db num R u' v' o
  weaken Q R u v u' v' crashes f m n h = h
  weaken Q R u v u' v' out_of_fuel f m n h = h
  weaken Q R u v u' v' (returns st r) f m n h =
      let b = h.0 in
      (
        record {
          holds = b.holds;
          unsettled_le = omega (arith, b.unsettled_le);
          live_le = omega (arith, b.live_le);
        },
        f r h.1,
      )

  delete_calls :
      (fuel u v : ℕ)
      → Deletes fuel
      → v < suc fuel
      → CallsEnd db num IsZero refl u v (delete_broken db flags (lock_name db flags fuel))
  unfolding delete_broken
  delete_calls fuel u v ih l st pkg dep b i =
      let name = (db.candidate pkg).name in
      let dead = dies st name b.holds i.below in
      let done = settles st name none b.holds i.below in
      let gone = ap bit i.stays in
      weaken IsZero IsZero _ _ u v _ (λ r q. q) (omega (arith, done, b.unsettled_le))
        (omega (arith, dead, gone, b.live_le))
        (ih st name b.holds i.below (omega (arith, dead, gone, b.live_le)))

  delete_dependants :
      (fuel : ℕ) (st : SolverState) (name : ℕ) (oldpkg : Option ℕ) (u v : ℕ)
      → Deletes fuel
      → IsDb db num
      → v < suc fuel
      → IsBelow db num u v st
      → Ends db num IsZero u v
          (check_dependants db flags (lock_name db flags fuel) name oldpkg none st)
  delete_dependants fuel st name none u v ih d l b = (b, refl)
  delete_dependants fuel st name (some oldpkg) u v ih d l b =
      for_each_broken-Ends db num IsZero refl u v _ name (db.entry name).rdepends st
        (delete_calls fuel u v ih l) d (d.rdepends_below name) b

  checked-IsZero :
      (lock : SolverState → ℕ → Option ℕ → Outcome) (u v : ℕ) (st : SolverState) (name : ℕ)
      (oldpkg : Option ℕ)
      → Ends db num IsZero u v
          (check_dependants db flags lock name oldpkg none (put_pkg st name none))
      → Ends db num IsZero u v (lock_checked db flags lock st name oldpkg none)
  unfolding lock_checked
  checked-IsZero lock u v st name oldpkg h =
      zero_goes_on none IsZero u v
        (check_dependants db flags lock name oldpkg none (put_pkg st name none))
        (λ st1.
          or_conflict db none (fix_package db flags lock none st1) (track_change db oldpkg none))
        h (λ st1 b1. track-IsBelow IsZero u v oldpkg none st1 refl b1)

  -- A call of apk_state_lock_name with a null package returns zero, if its fuel is above the number
  -- of names that are not gone: it neither fails nor reads a null pointer.
  pub lock_name-Deletes : (fuel : ℕ) → IsDb db num → Deletes fuel
  unfolding lock_name
  lock_name-Deletes zero d st name h l f = absurd (omega arith)
  lock_name-Deletes (suc fuel) d st name h l f =
      let u = unsettled (put_pkg st name none).names in
      let v = live (put_pkg st name none).names in
      rw inside (
        checked-IsZero (lock_name db flags fuel) u v st name _ (
          delete_dependants fuel (put_pkg st name none) name _ u v (lock_name-Deletes fuel d) d f
            (put_pkg-IsBelow st name none h l tt)))
    where
      inside : leb (num_names st) name ≡ false
      inside = ground (arith, l, h.size)
