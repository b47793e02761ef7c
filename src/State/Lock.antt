-- ===== src/State/Lock.antt =====
-- apk-tools/src/state.c, lines 331 to 580: a name is locked to a package, with all that follows for
-- the packages that depend on it and for its own dependencies. The functions call each other; the
-- innermost call of apk_state_lock_name is the argument `lock`, and fuel bounds their depth.
pub mod Selection
pub mod Member
pub mod Loops
pub mod Deletion
pub mod Ending
pub mod Returns
pub mod Success
pub mod Sound
pub mod Solves
use am_linux_terminal_robot.Common.{
  ℕ, zero, suc, ◌+◌, ◌*◌, Bool, true, false, ◌&&◌, ◌||◌, not, Option, none, some, List, [], ◌∷◌,
  ◌++◌, ◌==◌, if◌then◌else◌, ltb, leb, length, ℤ, pos, neg, eqb_ℤ, ltb_ℤ, get_or, set,
}
use am_linux_terminal_robot.Names.{Name}
use am_linux_terminal_robot.Package.Dependency.{Dependency, depmask_conflict, depmask_require}
use am_linux_terminal_robot.State.{
  Db, Flags, NameState, empty, locked, choices, SolverState, num_names, ns_from_pkg_non_pending,
  add_change, provides,
}
use am_linux_terminal_robot.State.Prune.{name_state, put, prune_dependency}
use am_linux_terminal_robot.State.Lock.Selection.{choose}

-- What a call leads to: a state and a result, or a null pointer or an index out of bounds is read.
pub data Outcome : Type 0 where
  returns : SolverState → ℤ → Outcome
  crashes out_of_fuel : Outcome

-- Each name is locked once, and deleted once.
abbrev pub lock_fuel : SolverState → ℕ
lock_fuel st = 2 * num_names st + 2

-- `if (r != 0) return r`
abbrev pub and_then : Outcome → (SolverState → Outcome) → Outcome
and_then (returns st r) k = if eqb_ℤ r (pos 0) then k st else returns st r
and_then crashes k = crashes
and_then out_of_fuel k = out_of_fuel

abbrev pub failed : ℤ → Option SolverState → Outcome
failed r none = crashes
failed r (some st) = returns st r

-- The result -1, where a call before it failed.
abbrev pub failing : Outcome → Outcome
failing (returns st r) = returns st (neg 1)
failing crashes = crashes
failing out_of_fuel = out_of_fuel

abbrev pub continue_with : Outcome → (SolverState → Outcome) → Outcome
continue_with (returns st r) k = if eqb_ℤ r (pos 0) then k st else failing (k st)
continue_with crashes k = crashes
continue_with out_of_fuel k = out_of_fuel

-- The package of a name that its rdepends are checked with, if there is one.
abbrev pub first_installed : Db → List ℕ → Option ℕ
first_installed db [] = none
first_installed db (p ∷ ps) = if (db.candidate p).ipkg then some p else first_installed db ps

abbrev pub same_pkg : Option ℕ → Option ℕ → Bool
same_pkg none none = true
same_pkg none (some q) = false
same_pkg (some p) none = false
same_pkg (some p) (some q) = p == q

-- ns_to_pkg, of a locked name or one that was not visited. Choices are taken for a pointer there.
abbrev pub locked_pkg : NameState → Option ℕ
locked_pkg empty = none
locked_pkg (locked pkg pending error) = pkg
locked_pkg (choices c) = none

module _ (db : Db) where
  -- The package that apk_state_lock_name finds installed: the last one.
  unfoldable pub installed_pkg : ℕ → List ℕ → Option ℕ
  installed_pkg name [] = none
  installed_pkg name (p ∷ ps) = elim (installed_pkg name ps) [
    | some q ↦ some q
    | none ↦ (let c = db.candidate p in if c.name == name && c.ipkg then some p else none)
  ]

  -- The first dependency on the name that its package does not meet.
  abbrev pub is_met : Option ℕ → Dependency → Bool
  is_met none dep = dep.result_mask == depmask_conflict
  is_met (some pkg) dep = provides db dep pkg

  unfoldable pub broken_dependency : ℕ → Option ℕ → List Dependency → Option Dependency
  broken_dependency name dep_pkg [] = none
  broken_dependency name dep_pkg (dep ∷ deps) =
      if dep.name.id == name && not (is_met dep_pkg dep)
      then some dep
      else broken_dependency name dep_pkg deps

  -- What for_each_broken_reverse_depency looks at in a name: the package that is checked.
  abbrev pub checked_pkg : ℕ → NameState → Option ℕ
  checked_pkg name (locked pkg pending error) = pkg
  checked_pkg name (choices c) = first_installed db c
  checked_pkg name empty = first_installed db (db.entry name).pkgs

  module _ (cb : SolverState → ℕ → Dependency → Outcome) where
    abbrev pub call_cb : SolverState → ℕ → Option Dependency → Outcome
    call_cb st pkg none = returns st (pos 0)
    call_cb st pkg (some dep) = cb st pkg dep

    -- call_if_dependency_broke, where there is a package
    abbrev pub call_if_broke : SolverState → ℕ → Option ℕ → Outcome
    call_if_broke st dep_name none = returns st (pos 0)
    call_if_broke st dep_name (some pkg) = call_cb st pkg (
        broken_dependency dep_name (locked_pkg (name_state st dep_name)) (db.candidate pkg).depends)

    -- for_each_broken_reverse_depency, over the names of `rdepends`
    unfoldable pub for_each_broken : ℕ → List ℕ → SolverState → Outcome
    for_each_broken name [] st = returns st (pos 0)
    for_each_broken name (name0 ∷ rdepends) st =
        if leb (num_names st) name0
        then crashes
        else and_then (call_if_broke st name (checked_pkg name0 (name_state st name0)))
            (for_each_broken name rdepends)

  -- apk_state_record_conflict
  unfoldable pub record_conflict : SolverState → Option ℕ → Option SolverState
  record_conflict st none = none
  record_conflict st (some pkg) =
      let name = (db.candidate pkg).name in
      if leb (num_names st) name
      then none
      else some (record st {
        names = set st.names name (locked (some pkg) false true);
        conflicts = st.conflicts ++ pkg ∷ [];
      })

  -- `if (r != 0) { record the conflict; return r }`
  abbrev pub or_conflict : Option ℕ → Outcome → (SolverState → Outcome) → Outcome
  or_conflict newpkg (returns st r) k =
      if eqb_ℤ r (pos 0) then k st else failed r (record_conflict st newpkg)
  or_conflict newpkg crashes k = crashes
  or_conflict newpkg out_of_fuel k = out_of_fuel

  -- `newpkg == NULL || !(newpkg->name->flags & APK_NAME_REINSTALL)`
  abbrev pub not_reinstalled : Option ℕ → Bool
  not_reinstalled none = true
  not_reinstalled (some pkg) = not (db.entry (db.candidate pkg).name).reinstall

  abbrev pub track_change : Option ℕ → Option ℕ → SolverState → Outcome
  track_change oldpkg newpkg st =
      if same_pkg oldpkg newpkg && not_reinstalled newpkg
      then returns st (pos 0)
      else returns (add_change st oldpkg newpkg) (pos 0)

module _ (db : Db) (flags : Flags) where
  module _ (lock : SolverState → ℕ → Option ℕ → Outcome) where
    -- What follows apk_state_prune_dependency in apk_state_lock_dependency.
    abbrev pub use_choice : SolverState → ℕ → Option ℕ → Outcome
    use_choice st name none = returns st (neg 1)
    use_choice st name (some pkg) = lock st name (some pkg)

    abbrev pub lock_pruned : SolverState → ℕ → NameState → Outcome
    lock_pruned st name (locked pkg true error) = lock st name pkg
    lock_pruned st name (locked pkg false error) = crashes
    lock_pruned st name empty = crashes
    lock_pruned st name (choices c) =
        use_choice st name (choose db flags (db.entry name).reinstall c)

    abbrev pub lock_if : Dependency → SolverState × ℤ → Outcome
    lock_if dep (st, r) =
        if ltb_ℤ (pos 0) r
        then lock_pruned st dep.name.id (name_state st dep.name.id)
        else returns st r

    -- apk_state_lock_dependency
    unfoldable pub lock_dependency : SolverState → Dependency → Outcome
    lock_dependency st dep = lock_if dep (prune_dependency db flags st dep)

    -- apk_state_fix_package, over the dependencies of the package: all are locked, and the result is
    -- -1 if one of them failed.
    unfoldable pub fix_depends : List Dependency → SolverState → Outcome
    fix_depends [] st = returns st (pos 0)
    fix_depends (dep ∷ deps) st = continue_with (lock_dependency st dep) (fix_depends deps)

    abbrev pub fix_package : Option ℕ → SolverState → Outcome
    fix_package none st = returns st (pos 0)
    fix_package (some pkg) st = fix_depends (db.candidate pkg).depends st

    -- delete_broken_package
    unfoldable pub delete_broken : SolverState → ℕ → Dependency → Outcome
    delete_broken st pkg dep = lock st (db.candidate pkg).name none

    -- The name of a package, as a dependency holds it.
    abbrev pub name_of : ℕ → Name
    name_of pkg = record { name = []; id = (db.candidate pkg).name }

    -- reinstall_broken_package
    unfoldable pub reinstall_broken : SolverState → ℕ → Dependency → Outcome
    reinstall_broken st pkg dep =
        lock_dependency st
          (record { name = name_of pkg; result_mask = depmask_require; version = none })

    -- The dependants of the old package, if there is one.
    abbrev pub check_dependants : ℕ → Option ℕ → Option ℕ → SolverState → Outcome
    check_dependants name none newpkg st = returns st (pos 0)
    check_dependants name (some oldpkg) none st =
        for_each_broken db delete_broken name (db.entry name).rdepends st
    check_dependants name (some oldpkg) (some newpkg) st =
        for_each_broken db reinstall_broken name (db.entry name).rdepends st

    -- The body of apk_state_lock_name behind the test of the id, with the package found installed.
    unfoldable pub lock_checked : SolverState → ℕ → Option ℕ → Option ℕ → Outcome
    lock_checked st name oldpkg newpkg =
        or_conflict db newpkg
          (check_dependants name oldpkg newpkg (put st name (ns_from_pkg_non_pending newpkg)))
          (λ st1. or_conflict db newpkg (fix_package newpkg st1) (track_change db oldpkg newpkg))

  -- apk_state_lock_name
  unfoldable pub lock_name : ℕ → SolverState → ℕ → Option ℕ → Outcome
  lock_name zero st name newpkg = out_of_fuel
  lock_name (suc fuel) st name newpkg =
      if leb (num_names st) name
      then returns st (neg 1)
      else lock_checked (lock_name fuel) st name (installed_pkg db name (db.entry name).pkgs) newpkg
