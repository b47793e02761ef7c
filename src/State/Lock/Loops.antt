-- ===== src/State/Lock/Loops.antt =====
-- About the loops of apk_state_lock_name and apk_state_fix_package in apk-tools/src/state.c.
use am_linux_terminal_robot.Common.{
  ℕ, ◌<◌, ◌≤◌, ◌≡◌, refl, sym, true, false, Option, none, some, List, [], ◌∷◌, leb, All, arith,
  Bool-cases, inl, inr, ℤ, pos, eqb_ℤ,
}
use mathlib.Core.Path.{subst}
use mathlib.Core.Option.{some-injective}
use am_linux_terminal_robot.Package.Dependency.{Dependency}
use am_linux_terminal_robot.State.{Db, NameState, empty, locked, choices, SolverState, num_names}
use am_linux_terminal_robot.State.Names.{unsettled, live, is_live, IsOf, IsOwned, IsDb, IsNames}
use am_linux_terminal_robot.State.Prune.{name_state}
use am_linux_terminal_robot.State.Lock.{
  Outcome, returns, crashes, out_of_fuel, and_then, first_installed, checked_pkg, call_cb,
  call_if_broke, for_each_broken,
}

module _ (db : Db) (num : ℕ) where
  -- A state that a call returns, with bounds on the names that still change.
  pub record IsBelow (u v : ℕ) (st : SolverState) : Type 0 where
    pub holds : IsNames db num st.names
    pub unsettled_le : unsettled st.names ≤ u
    pub live_le : live st.names ≤ v

  -- A call returns, with a result that is allowed: it neither reads a null pointer nor is out of
  -- fuel.
  abbrev pub Ends : (ℤ → Type 0) → ℕ → ℕ → Outcome → Type 0
  Ends Q u v (returns st r) = IsBelow u v st × Q r
  Ends Q u v crashes = ⊥
  Ends Q u v out_of_fuel = ⊥

  and_then-Ends :
      (Q : ℤ → Type 0) (u v : ℕ) (o : Outcome) (k : SolverState → Outcome)
      → Ends Q u v o
      → ((st : SolverState) → IsBelow u v st → Ends Q u v (k st))
      → Ends Q u v (and_then o k)
  and_then-Ends Q u v crashes k h g = h
  and_then-Ends Q u v out_of_fuel k h g = h
  and_then-Ends Q u v (returns st r) k h g = elim (Bool-cases (eqb_ℤ r (pos 0))) [
    | inl e ↦ rw e (g st h.0)
    | inr e ↦ rw e h
  ]

  -- What a callback is called with: a package of a name that is not gone.
  pub record IsCalled (st : SolverState) (pkg : ℕ) : Type 0 where
    pub below : (db.candidate pkg).name < num
    pub stays : is_live (name_state st (db.candidate pkg).name) ≡ true

  first_installed-IsOf :
      (name : ℕ) (ps : List ℕ) {p : ℕ}
      → All (IsOf db name) ps
      → first_installed db ps ≡ some p
      → IsOf db name p
  first_installed-IsOf name [] h e = cc
  first_installed-IsOf name (q ∷ ps) {p} h e = elim (Bool-cases (db.candidate q).ipkg) [
    | inl t ↦ subst (IsOf db name) (some-injective q p (rw t at e)) h.0
    | inr t ↦ first_installed-IsOf name ps h.1 (rw t at e)
  ]

  -- The package that is checked of a name is one of the name, which is not gone.
  checked-IsOf :
      (name : ℕ) (s : NameState) {p : ℕ}
      → IsDb db num
      → IsOwned db name s
      → checked_pkg db name s ≡ some p
      → IsOf db name p × (is_live s ≡ true)
  checked-IsOf name empty d o e = (first_installed-IsOf name _ (d.owned name) e, refl)
  checked-IsOf name (locked none pending error) d o e = cc
  checked-IsOf name (locked (some q) pending error) {p} d o e =
      (subst (IsOf db name) (some-injective q p e) o, refl)
  checked-IsOf name (choices c) d o e = (first_installed-IsOf name c o e, refl)

  module _ (Q : ℤ → Type 0) (zero_allowed : Q (pos 0)) (u v : ℕ) where
    abbrev Callback : Type 0
    Callback = SolverState → ℕ → Dependency → Outcome

    abbrev pub CallsEnd : Callback → Type 0
    CallsEnd cb =
        (st : SolverState) (pkg : ℕ) (dep : Dependency)
        → IsBelow u v st
        → IsCalled st pkg
        → Ends Q u v (cb st pkg dep)

    call-Ends :
        (cb : Callback) (st : SolverState) (pkg : ℕ) (dep : Option Dependency)
        → CallsEnd cb
        → IsBelow u v st
        → IsCalled st pkg
        → Ends Q u v (call_cb db cb st pkg dep)
    call-Ends cb st pkg none c b i = (b, zero_allowed)
    call-Ends cb st pkg (some dep) c b i = c st pkg dep b i

    broke-Ends :
        (cb : Callback) (st : SolverState) (name name0 : ℕ) (pkg : Option ℕ)
        → CallsEnd cb
        → IsDb db num
        → IsBelow u v st
        → name0 < num
        → checked_pkg db name0 (name_state st name0) ≡ pkg
        → Ends Q u v (call_if_broke db cb st name pkg)
    broke-Ends cb st name name0 none c d b l e = (b, zero_allowed)
    broke-Ends cb st name name0 (some pkg) c d b l e =
        let (o, i) = checked-IsOf name0 (name_state st name0) d (b.holds.holds name0) e in
        call-Ends cb st pkg _ c b (record {
          below = subst (λ n. n < num) (sym o) l;
          stays = subst (λ n. is_live (name_state st n) ≡ true) (sym o) i;
        })

    -- The loop over the names that depend on a name ends, if its callback does.
    pub for_each_broken-Ends :
        (cb : Callback) (name : ℕ) (rdepends : List ℕ) (st : SolverState)
        → CallsEnd cb
        → IsDb db num
        → All (λ n. n < num) rdepends
        → IsBelow u v st
        → Ends Q u v (for_each_broken db cb name rdepends st)
    unfolding for_each_broken
    for_each_broken-Ends cb name [] st c d a b = (b, zero_allowed)
    for_each_broken-Ends cb name (name0 ∷ rdepends) st c d a b = rw inside (
        and_then-Ends Q u v _ (for_each_broken db cb name rdepends)
          (broke-Ends cb st name name0 _ c d b a.0 refl)
          (λ st1 b1. for_each_broken-Ends cb name rdepends st1 c d a.1 b1))
      where
        inside : leb (num_names st) name0 ≡ false
        inside = ground (arith, a.0, b.holds.size)
