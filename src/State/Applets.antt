-- ===== src/State/Applets.antt =====
-- apk-tools/src/cache.c, lines 36 to 47, and apk-tools/src/del.c, lines 44 to 58: an applet locks
-- one dependency after the other in a new state.
pub mod Solution
use am_linux_terminal_robot.Common.{
  ℕ, Bool, Option, some, if◌then◌else◌, none, List, [], ◌∷◌, ℤ, pos, neg, eqb_ℤ,
}
use am_linux_terminal_robot.Names.{Name}
use am_linux_terminal_robot.Package.Dependency.{Dependency, depmask_conflict}
use am_linux_terminal_robot.State.{Db, Flags, SolverState, state_new}
use am_linux_terminal_robot.State.Lock.{
  Outcome, returns, crashes, out_of_fuel, and_then, continue_with, lock_name, lock_dependency,
  lock_fuel,
}

module _ (db : Db) (flags : Flags) where
  -- A call of apk_state_lock_dependency with the fuel that is enough.
  abbrev pub lock_one : SolverState → Dependency → Outcome
  lock_one st dep = lock_dependency db flags (lock_name db flags (lock_fuel st)) st dep

  -- The loop of cache_download stops at the first error.
  unfoldable pub lock_world : List Dependency → SolverState → Outcome
  lock_world [] st = returns st (pos 0)
  lock_world (dep ∷ deps) st = and_then (lock_one st dep) (lock_world deps)

  abbrev from_state : Option SolverState → Outcome
  from_state none = crashes
  from_state (some st) = lock_world db.world st

  unfoldable pub cache_download_state : ℕ → Outcome
  cache_download_state name_id = from_state (state_new name_id)
