-- ===== src/State/Applets/Solution.antt =====
-- About the loop of cache_download in apk-tools/src/cache.c over the dependencies of the world.
use mathlib.Core.Path.{subst}
use mathlib.Core.Option.{some-injective}
use am_linux_terminal_robot.Common.{
  ℕ, ◌≡◌, ◌≢◌, refl, sym, some, List, [], ◌∷◌, All, Bool-cases, Option-cases, inl, inr, arith, pos,
  eqb_ℤ,
}
use am_linux_terminal_robot.Package.Dependency.{Dependency, depmask_conflict}
use am_linux_terminal_robot.State.{
  Db, Flags, NameState, SolverState, num_names, state_new, new_state, num_bytes, state_size,
}
use am_linux_terminal_robot.State.Names.{IsDb, IsNames, get_or-empty_names}
use am_linux_terminal_robot.State.Lock.{Outcome, returns, and_then, lock_name, lock_fuel}
use am_linux_terminal_robot.State.Lock.Deletion.{IsAny}
use am_linux_terminal_robot.State.Lock.Returns.{Returns, lock_dependency-Returns}
use am_linux_terminal_robot.State.Lock.Success.{
  IsMet, HasNoConflicts, IsKept, Succeeds, seen_from, and_then-Succeeds,
}
use am_linux_terminal_robot.State.Lock.Sound.{MeetsAll, dependency-Meets, again, in_two_steps}
use am_linux_terminal_robot.State.Lock.Solves.{IsSolved, lock_name_sound}
use am_linux_terminal_robot.State.Applets.{lock_one, lock_world, cache_download_state}

-- A state that is made is the new one.
state_new-some :
    (name_id : ℕ) (st : SolverState) → state_new name_id ≡ some st → new_state name_id ≡ st
unfolding state_new
state_new-some name_id st e =
    elim (Bool-cases (eqb_ℤ (num_bytes name_id) (pos (state_size name_id)))) [
      | inl q ↦ some-injective _ _ (rw q at e)
      | inr q ↦ absurd (cc (rw q at e))
    ]

-- A dependency that is no conflict.
abbrev pub IsRequired : Dependency → Type 0
IsRequired dep = dep.result_mask ≢ depmask_conflict

module _ (db : Db) (flags : Flags) where
  module _ (n : HasNoConflicts db) where
    abbrev None : ℕ → Type 0
    None name = ⊥

    world_meets :
        (names : List NameState) (deps : List Dependency) (st : SolverState)
        → All IsRequired deps
        → IsKept db None names st
        → Succeeds db None (MeetsAll db flags deps) names (lock_world db flags deps st)
    unfolding lock_world
    world_meets names [] st m k = λ z. (k, tt)
    world_meets names (dep ∷ deps) st m k =
        and_then-Succeeds db None (λ st1. IsMet db st1.names dep) (MeetsAll db flags (dep ∷ deps))
          names (lock_one db flags st dep) (lock_world db flags deps)
          (dependency-Meets db flags (lock_name db flags (lock_fuel st))
            (lock_name_sound db flags n (lock_fuel st)) None names st dep m.0 k)
          (λ st1 k1 (p, (e, v)).
            seen_from db None None (MeetsAll db flags deps) (MeetsAll db flags (dep ∷ deps))
              st1.names names (lock_world db flags deps st1)
              (λ st2 k2 ms. (
                in_two_steps db flags None names st1 st2 k1.keeps k2,
                ((p, (k2.keeps dep.name.id (some p) e, v)), ms),
              ))
              (world_meets st1.names deps st1 m.1 (again db flags None names st1 k1)))

    new_state-IsKept : (name_id : ℕ) → IsKept db None (new_state name_id).names (new_state name_id)
    unfolding new_state
    new_state-IsKept name_id = record {
      keeps = λ name pkg e. e;
      complete = λ name pkg e. absurd (cc (e, get_or-empty_names db name_id name));
    }

    state_new-IsKept :
        (name_id : ℕ) (st : SolverState) → state_new name_id ≡ some st → IsKept db None st.names st
    state_new-IsKept name_id st e =
        subst (λ s. IsKept db None s.names s) (state_new-some name_id st e)
          (new_state-IsKept name_id)

    -- If the loop of cache_download locks all dependencies of the world without an error, each of
    -- them is met by the package that its name is settled to, and so is each dependency of every
    -- package that a name is settled to. No package and not the world has a conflict among its
    -- dependencies.
    pub cache_download_state-Solves :
        (name_id : ℕ) (st : SolverState)
        → All IsRequired db.world
        → cache_download_state db flags name_id ≡ returns st (pos 0)
        → IsSolved db flags n st.names × All (IsMet db st.names) db.world
    unfolding cache_download_state
    cache_download_state-Solves name_id st m e = elim (Option-cases (state_new name_id)) [
      | inl missing ↦ absurd (cc (rw missing at e))
      | inr (first, there) ↦
          (let r =
              subst (Succeeds db None (MeetsAll db flags db.world) first.names) (rw there at e)
                (world_meets first.names db.world first m (state_new-IsKept name_id first there))
                refl in
            (r.0.complete, r.1))
    ]

  followed :
      (st : SolverState) (o : Outcome) (k : SolverState → Outcome)
      → Returns db flags st IsAny o
      → ((st1 : SolverState)
          → num_names st1 ≡ num_names st
          → IsNames db (num_names st1) st1.names
          → Returns db flags st1 IsAny (k st1))
      → Returns db flags st IsAny (and_then o k)
  followed st o k h g =
      let s = h.state in
      let r = h.result in
      let h1 = subst (λ m. IsNames db m s.names) (sym h.holds.size) h.holds in
      rw h.outcome (elim (Bool-cases (eqb_ℤ r (pos 0))) [
        | inl e ↦
            (let q = g s h.holds.size h1 in
              rw e (record {
                state = q.state;
                result = q.result;
                outcome = q.outcome;
                allowed = tt;
                holds = subst (λ m. IsNames db m q.state.names) h.holds.size q.holds;
                unsettled_le = omega (arith, q.unsettled_le, h.unsettled_le);
              }))
        | inr e ↦ rw e (record {
          state = s;
          result = r;
          outcome = refl;
          allowed = tt;
          holds = h.holds;
          unsettled_le = h.unsettled_le;
        })
      ])

  -- The loop of apk_state_lock_dependency over any dependencies returns, if the names of the
  -- database and of the state hold packages of their own.
  pub lock_world-Returns :
      (deps : List Dependency) (st : SolverState)
      → IsDb db (num_names st)
      → IsNames db (num_names st) st.names
      → Returns db flags st IsAny (lock_world db flags deps st)
  unfolding lock_world
  lock_world-Returns [] st d h = record {
    state = st;
    result = pos 0;
    outcome = refl;
    allowed = tt;
    holds = h;
    unsettled_le = omega arith;
  }
  lock_world-Returns (dep ∷ deps) st d h =
      followed st (lock_one db flags st dep) (lock_world db flags deps)
        (lock_dependency-Returns db flags st dep d h)
        (λ st1 e h1. lock_world-Returns deps st1 (subst (IsDb db) (sym e) d) h1)
