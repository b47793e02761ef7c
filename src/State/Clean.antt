-- ===== src/State/Clean.antt =====
-- apk-tools/src/state.c, lines 765 to 799: the dependencies of a package that is replaced or removed
-- are removed too, where nothing needs them.
pub mod Returns
use am_linux_terminal_robot.Common.{
  ℕ, Bool, true, false, ◌||◌, List, [], ◌∷◌, if◌then◌else◌, leb, none, pos, eqb_ℤ,
}
use am_linux_terminal_robot.Package.Dependency.{Dependency}
use am_linux_terminal_robot.State.{
  Db, Flags, NameState, empty, locked, choices, SolverState, num_names, ns_from_pkg,
}
use am_linux_terminal_robot.State.Prune.{name_state, put}
use am_linux_terminal_robot.State.Lock.{
  Outcome, returns, crashes, out_of_fuel, and_then, for_each_broken, lock_name,
}

-- ns_locked
abbrev pub is_locked : NameState → Bool
is_locked empty = false
is_locked (locked pkg pending error) = true
is_locked (choices c) = false

-- fail_if_something_broke
abbrev pub fail_if_broke : SolverState → ℕ → Dependency → Outcome
fail_if_broke st pkg dep = returns st (pos 1)

module _ (db : Db) (flags : Flags) (fuel : ℕ) where
  -- What follows the check of the dependants, with the name's state as it was.
  abbrev pub remove_unneeded : ℕ → NameState → Outcome → Outcome
  remove_unneeded name oldns (returns st r) =
      let st1 = put st name oldns in
      if eqb_ℤ r (pos 0) then lock_name db flags fuel st1 name none else returns st1 (pos 0)
  remove_unneeded name oldns crashes = crashes
  remove_unneeded name oldns out_of_fuel = out_of_fuel

  abbrev pub clean_name : SolverState → ℕ → Outcome
  clean_name st name =
      let oldns = name_state st name in
      let e = db.entry name in
      if leb (num_names st) name
      then crashes
      else if is_locked oldns || e.toplevel
      then returns st (pos 0)
      else remove_unneeded name oldns
          (for_each_broken db fail_if_broke name e.rdepends (put st name (ns_from_pkg none)))

  -- apk_state_autoclean, over the dependencies of the package
  unfoldable pub autoclean : List Dependency → SolverState → Outcome
  autoclean [] st = returns st (pos 0)
  autoclean (dep ∷ deps) st = and_then (clean_name st dep.name.id) (autoclean deps)
