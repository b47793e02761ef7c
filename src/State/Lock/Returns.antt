-- ===== src/State/Lock/Returns.antt =====
-- About the outcomes of apk_state_lock_dependency and apk_state_lock_name in apk-tools/src/state.c.
use am_linux_terminal_robot.Common.{ℕ, ◌<◌, ◌≤◌, ◌≡◌, refl, Option, none, some, arith, ℤ}
use am_linux_terminal_robot.Package.Dependency.{Dependency}
use am_linux_terminal_robot.State.{Db, Flags, SolverState, num_names, ns_from_pkg_non_pending}
use am_linux_terminal_robot.State.Names.{
  count-le-length, unsettled, is_unsettled, is_live, IsOf, IsDb, IsNames, set-IsNames,
}
use am_linux_terminal_robot.State.Prune.{put}
use am_linux_terminal_robot.State.Lock.{
  Outcome, returns, crashes, out_of_fuel, lock_name, lock_dependency, lock_fuel,
}
use am_linux_terminal_robot.State.Lock.Loops.{Ends}
use am_linux_terminal_robot.State.Lock.Deletion.{IsZero, IsAny, settles, lock_name-Deletes}
use am_linux_terminal_robot.State.Lock.Ending.{lock_name-Locks, dependency-Ends}

module _ (db : Db) (flags : Flags) where
  -- A call returns a state whose names hold packages of their own, with no more of them unsettled
  -- than there were, and a result that is allowed.
  pub record Returns (st : SolverState) (Q : ℤ → Type 0) (o : Outcome) : Type 0 where
    pub state : SolverState
    pub result : ℤ
    pub outcome : o ≡ returns state result
    pub allowed : Q result
    pub holds : IsNames db (num_names st) state.names
    pub unsettled_le : unsettled state.names ≤ unsettled st.names

  pub ends_returns :
      (st : SolverState) (Q : ℤ → Type 0) (u v : ℕ) (o : Outcome)
      → u ≤ unsettled st.names
      → Ends db (num_names st) Q u v o
      → Returns st Q o
  ends_returns st Q u v crashes l e = absurd e
  ends_returns st Q u v out_of_fuel l e = absurd e
  ends_returns st Q u v (returns st' r) l e =
      let b = e.0 in
      record {
        state = st';
        result = r;
        outcome = refl;
        allowed = e.1;
        holds = b.holds;
        unsettled_le = omega (arith, b.unsettled_le);
      }

  -- A call of apk_state_lock_dependency, for any dependency, returns: with fuel for twice the number
  -- of names it neither runs out of it nor reads a null pointer or a name out of bounds. The names
  -- of the database and of the state hold packages of their own.
  pub lock_dependency-Returns :
      (st : SolverState) (dep : Dependency)
      → IsDb db (num_names st)
      → IsNames db (num_names st) st.names
      → Returns st IsAny (lock_dependency db flags (lock_name db flags (lock_fuel st)) st dep)
  lock_dependency-Returns st dep d h =
      let n = num_names st in
      let f = lock_fuel st in
      let c = count-le-length is_unsettled st.names in
      ends_returns st IsAny (unsettled st.names) n _ (omega arith) (
        dependency-Ends db flags n f (unsettled st.names) (lock_name-Locks db flags n f d)
          (lock_name-Deletes db flags n f d) d (omega (arith, c)) st dep
          (record {
            holds = h;
            unsettled_le = omega arith;
            live_le = omega (arith, count-le-length is_live st.names);
          }))

  settled-le :
      (st : SolverState) (name : ℕ) (newpkg : Option ℕ)
      → IsNames db (num_names st) st.names
      → name < num_names st
      → unsettled (put st name (ns_from_pkg_non_pending newpkg)).names ≤ unsettled st.names
  settled-le st name newpkg h l = omega (arith, settles db flags (num_names st) st name newpkg h l)

  -- A call of apk_state_lock_name that removes a name returns zero: a removal cannot fail. The
  -- name is one of the solver's, the names of the database and of the state hold packages of their
  -- own, and the names that depend on a name of the database are names of the solver, with ids below
  -- their number.
  pub lock_name_removes :
      (st : SolverState) (name : ℕ)
      → IsDb db (num_names st)
      → IsNames db (num_names st) st.names
      → name < num_names st
      → Returns st IsZero (lock_name db flags (lock_fuel st) st name none)
  lock_name_removes st name d h l =
      let n = num_names st in
      let h1 = set-IsNames db st.names name (ns_from_pkg_non_pending none) h l tt in
      ends_returns st IsZero _ _ _ (settled-le st name none h l) (
        lock_name-Deletes db flags n (lock_fuel st) d st name h l (
          omega (
            arith,
            count-le-length is_live (put st name (ns_from_pkg_non_pending none)).names,
            h1.size,
          )))

  -- A call of apk_state_lock_name with a package of the name returns, under the same conditions.
  pub lock_name-Returns :
      (st : SolverState) (name p : ℕ)
      → IsDb db (num_names st)
      → IsNames db (num_names st) st.names
      → name < num_names st
      → IsOf db name p
      → Returns st IsAny (lock_name db flags (lock_fuel st) st name (some p))
  lock_name-Returns st name p d h l o =
      let n = num_names st in
      let s = settled-le st name (some p) h l in
      ends_returns st IsAny _ _ _ s (
        lock_name-Locks db flags n (lock_fuel st) d st name p h l o
          (omega (arith, s, count-le-length is_unsettled st.names)))
