-- ===== src/State/Prune.antt =====
-- apk-tools/src/state.c, lines 236 to 329: apk_state_prune_dependency.
pub mod Invariant
pub mod Sound
use am_linux_terminal_robot.Common.{
  ℕ, Bool, true, false, Option, none, some, List, [], ◌∷◌, ◌++◌, ◌==◌, if◌then◌else◌, leb, length,
  ℤ, pos, neg, get_or, set,
}
use am_linux_terminal_robot.Package.Dependency.{Dependency, depmask_conflict}
use am_linux_terminal_robot.State.{
  Db, Flags, NameState, empty, locked, choices, SolverState, num_names, ns_from_pkg,
  ns_from_pkg_non_pending, provides, pkg_available,
}
use am_linux_terminal_robot.State.Choices.{prune_choices, name_choices_new, ns_from_choices}

abbrev pub name_state : SolverState → ℕ → NameState
name_state st name = get_or st.names name empty

abbrev pub put : SolverState → ℕ → NameState → SolverState
put st name s = record st { names = set st.names name s }

abbrev pub put_missing : SolverState → ℕ → NameState → SolverState
put_missing st name s = record st { names = set st.names name s; missing = st.missing ++ name ∷ [] }

module _ (db : Db) (flags : Flags) where
  abbrev pub when_pending : Bool → SolverState → SolverState × ℤ
  when_pending true st = (st, pos 1)
  when_pending false st = (st, pos 0)

  -- The branch of a name that is locked.
  unfoldable pub prune_locked : SolverState → Dependency → Option ℕ → Bool → Bool → SolverState × ℤ
  prune_locked st dep pkg pending true = (st, neg 1)
  prune_locked st dep none pending false =
      if dep.result_mask == depmask_conflict
      then when_pending pending st
      else if pending
      then (put_missing st dep.name.id (ns_from_pkg_non_pending none), neg 1)
      else (st, neg 1)
  prune_locked st dep (some pkg) pending false =
      if provides db dep pkg then when_pending pending st else (st, neg 1)

  -- What follows the loop over the choices, for those that are left.
  unfoldable pub prune_left : SolverState → ℕ → List ℕ → SolverState × ℤ
  prune_left st name [] = (put_missing st name (ns_from_pkg none), neg 1)
  prune_left st name (p ∷ []) =
      if pkg_available db flags p
      then (put st name (ns_from_pkg (some p)), pos 1)
      else (put_missing st name (ns_from_pkg none), neg 1)
  prune_left st name (p ∷ q ∷ ps) = (put st name (choices (p ∷ q ∷ ps)), pos (length (p ∷ q ∷ ps)))

  -- Behind the branch of a name that was not visited yet.
  unfoldable pub prune_visited : SolverState → Dependency → NameState → SolverState × ℤ
  prune_visited st dep empty = (st, neg 1)
  prune_visited st dep (locked pkg pending error) = prune_locked st dep pkg pending error
  prune_visited st dep (choices c) = prune_left st dep.name.id (prune_choices (provides db dep) c)

  abbrev pub visit : Dependency → NameState
  visit dep = ns_from_choices (name_choices_new db dep.name.id)

  abbrev pub prune_state : SolverState → Dependency → NameState → SolverState × ℤ
  prune_state st dep empty =
      if dep.result_mask == depmask_conflict
      then (put st dep.name.id (ns_from_pkg none), pos 1)
      else prune_visited (put st dep.name.id (visit dep)) dep (visit dep)
  prune_state st dep (locked pkg pending error) = prune_visited st dep (locked pkg pending error)
  prune_state st dep (choices c) = prune_visited st dep (choices c)

  -- apk_state_prune_dependency
  unfoldable pub prune_dependency : SolverState → Dependency → SolverState × ℤ
  prune_dependency st dep =
      if leb (num_names st) dep.name.id
      then (st, neg 1)
      else prune_state st dep (name_state st dep.name.id)
