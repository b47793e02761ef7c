-- ===== src/State/Tests.antt =====
-- The theorems on the solver at concrete inputs: a database of two names with a package each, of
-- which the first depends on the second.
use mathlib.Core.List.{Permᴰ}
use am_linux_terminal_robot.Common.{
  ℕ, zero, suc, ◌<◌, ◌-◌, ◌^◌, ◌≢◌, refl, true, false, none, some, List, [], ◌∷◌, All, codes, arith,
  leb, length, ◌≡◌,
}
use am_linux_terminal_robot.Package.Dependency.{Dependency, depmask_conflict, depmask_require}
use am_linux_terminal_robot.Package.Info.{file_name}
use am_linux_terminal_robot.State.{
  Candidate, NameEntry, Db, Flags, locked, SolverState, state_new, new_state, empty_names, provides,
  pkg_available,
}
use am_linux_terminal_robot.State.Names.{IsDb, IsNames, IsOf, empty_names-IsNames}
use am_linux_terminal_robot.State.Choices.{
  prune_choices, prune_loop, prune_world, name_choices_new, last_to_front,
}
use am_linux_terminal_robot.State.Choices.Filter.{kept, prune_choices-kept}
use am_linux_terminal_robot.State.Prune.{prune_dependency, prune_locked, prune_left, prune_visited}
use am_linux_terminal_robot.State.Prune.Sound.{IsSound, prune_dependency-IsSound}
use am_linux_terminal_robot.State.Lock.{
  lock_name, lock_dependency, lock_fuel, lock_checked, for_each_broken, fix_depends, installed_pkg,
  broken_dependency,
}
use am_linux_terminal_robot.State.Lock.Selection.{choose, look_through, look_at, later}
use am_linux_terminal_robot.Version.Compare.{compare_blob}
use am_linux_terminal_robot.State.Lock.Deletion.{IsZero, IsAny}
use am_linux_terminal_robot.State.Lock.Returns.{Returns, lock_dependency-Returns, lock_name_removes}
use am_linux_terminal_robot.State.Lock.Success.{HasNoConflicts, IsMet}
use am_linux_terminal_robot.State.Lock.Solves.{IsSolved}
use am_linux_terminal_robot.State.Applets.{lock_world, cache_download_state}
use am_linux_terminal_robot.State.Applets.Solution.{cache_download_state-Solves}
use am_linux_terminal_robot.Blob.Checksum.{Checksum}
use am_linux_terminal_robot.Hash.{init, get, get_hashed, find}
use am_linux_terminal_robot.Files.{csum_hash, word}
use am_linux_terminal_robot.State.Changes.{
  change_message, cmp_new, cmp_remove, cmp_downgrade, cmp_upgrade,
}
use am_linux_terminal_robot.State.Changes.Kinds.{
  says_installing, says_purging, says_downgrading, says_upgrading, change_message-cmp,
}
use am_linux_terminal_robot.State.Clean.{autoclean}
use am_linux_terminal_robot.State.Clean.Returns.{autoclean-Returns}
use am_linux_terminal_robot.State.Packages.{
  Listed, Store, new_entry, lists_name, pkg_rdepends, pkg_add, to_db,
}
use am_linux_terminal_robot.State.Packages.Built.{
  Built, start, with_name, with_package, Built-Returns,
}
use am_linux_terminal_robot.State.Packages.Dependants.{is_listed, pkg_rdepends_lists}

abbrev on : ℕ → Dependency
on id = record {
  name = record { name = []; id = id };
  result_mask = depmask_require;
  version = none;
}

abbrev pkg_of : ℕ → List Dependency → Candidate
pkg_of name depends = record {
  name = name;
  version = some (codes "1.0");
  depends = depends;
  ipkg = false;
  installed_size = 0;
  filename = file_name (codes "a.apk");
  repos = 1;
}

abbrev entry_of : List ℕ → List ℕ → NameEntry
entry_of pkgs rdepends = record {
  toplevel = false;
  reinstall = false;
  toplevel_override = false;
  pkgs = pkgs;
  rdepends = rdepends;
}

abbrev candidates : ℕ → Candidate
candidates zero = pkg_of 0 (on 1 ∷ [])
candidates (suc p) = pkg_of 1 []

abbrev entries : ℕ → NameEntry
entries zero = entry_of (0 ∷ []) []
entries (suc zero) = entry_of (1 ∷ []) (0 ∷ [])
entries (suc (suc name)) = entry_of [] []

abbrev two : Db
two = record {
  candidate = candidates;
  entry = entries;
  world = on 0 ∷ [];
  local_repos = 1;
  bad_repos = 0;
  cached = λ p. true;
}

abbrev no_flags : Flags
no_flags = record { upgrade = false; prefer_available = false; no_network = false }

two-IsDb : IsDb two 2
two-IsDb = record { owned = owned; rdepends_below = below }
  where
    owned : (name : ℕ) → All (IsOf two name) (two.entry name).pkgs
    owned zero = (refl, tt)
    owned (suc zero) = (refl, tt)
    owned (suc (suc name)) = tt

    below : (name : ℕ) → All (λ n. n < 2) (two.entry name).rdepends
    below zero = tt
    below (suc zero) = (omega arith, tt)
    below (suc (suc name)) = tt

fresh : SolverState
fresh = record { refs = 1; names = empty_names 2; changes = []; conflicts = []; missing = [] }

fresh-IsNames : IsNames two 2 (empty_names 2)
fresh-IsNames = empty_names-IsNames two 2

prune_choices-kept_example :
    Permᴰ (prune_choices (leb 2) (1 ∷ 3 ∷ 2 ∷ [])) (kept (leb 2) (1 ∷ 3 ∷ 2 ∷ []))
prune_choices-kept_example = prune_choices-kept (leb 2) (1 ∷ 3 ∷ 2 ∷ [])

on_required : depmask_require ≢ depmask_conflict
on_required e = absurd (cc e)

prune_dependency-IsSound_example :
    IsSound two no_flags
      (on 0)
      on_required
      (empty_names 2)
      (prune_dependency two no_flags fresh (on 0)).0
      (prune_dependency two no_flags fresh (on 0)).1
unfolding fresh
prune_dependency-IsSound_example = prune_dependency-IsSound two no_flags (on 0) on_required fresh

lock_dependency-Returns_example :
    Returns two no_flags fresh IsAny
      (lock_dependency two no_flags (lock_name two no_flags (lock_fuel fresh)) fresh (on 0))
unfolding fresh
lock_dependency-Returns_example =
    lock_dependency-Returns two no_flags fresh (on 0) two-IsDb fresh-IsNames

lock_name_removes_example :
    Returns two no_flags fresh IsZero (lock_name two no_flags (lock_fuel fresh) fresh 1 none)
unfolding fresh
lock_name_removes_example =
    lock_name_removes two no_flags fresh 1 two-IsDb fresh-IsNames (omega arith)

no_conflicts : HasNoConflicts two
no_conflicts zero = ((λ e. cc), tt)
no_conflicts (suc p) = tt

solution : SolverState
solution = record {
  refs = 1;
  names = locked (some 0) false false ∷ locked (some 1) false false ∷ [];
  changes =
      record { oldpkg = none; newpkg = some 1 } ∷ record { oldpkg = none; newpkg = some 0 } ∷ [];
  conflicts = [];
  missing = [];
}

cache_download_state-Solves_example :
    IsSolved two no_flags no_conflicts solution.names × All (IsMet two solution.names) two.world
unfolding cache_download_state solution state_new new_state lock_world lock_dependency
    prune_dependency prune_locked prune_left prune_visited name_choices_new prune_loop prune_world
    provides pkg_available choose look_through look_at later lock_name lock_checked for_each_broken
    fix_depends installed_pkg broken_dependency compare_blob last_to_front
cache_download_state-Solves_example =
    cache_download_state-Solves two no_flags no_conflicts 2 solution ((λ e. cc), tt) refl

abbrev no_csum : Checksum
no_csum = record { data_bytes = []; type = 0 }

-- A database of a name and a package.
abbrev one_name : Store
one_name = record { packages = init Listed 2; candidates = []; entries = new_entry ∷ [] }

one_name-Built : Built one_name
one_name-Built =
    with_name (record { packages = init Listed 2; candidates = []; entries = [] }) (start 2)

abbrev one_package : Store
one_package = (pkg_add one_name no_csum (pkg_of 0 [])).0

few_names : length one_package.entries < 2 ^ 28 - 6
unfolding pkg_add get get_hashed find init csum_hash word pkg_rdepends
few_names = omega arith

Built-Returns_example :
    Returns
      (to_db one_package (on 0 ∷ []) 1 0 (λ p. true))
      no_flags
      (new_state (length one_package.entries))
      IsAny
      (cache_download_state
        (to_db one_package (on 0 ∷ []) 1 0 (λ p. true))
        no_flags
        (length one_package.entries))
Built-Returns_example =
    Built-Returns one_package (on 0 ∷ []) 1 0 (λ p. true) no_flags
      (with_package one_name no_csum (pkg_of 0 []) one_name-Built (omega arith)) few_names

abbrev three_entries : List NameEntry
three_entries = new_entry ∷ new_entry ∷ new_entry ∷ []

pkg_rdepends_lists_example :
    All
      (λ dep. is_listed 0 (pkg_rdepends 0 (on 1 ∷ on 2 ∷ []) three_entries) dep ≡ true)
      (on 1 ∷ on 2 ∷ [])
unfolding lists_name
pkg_rdepends_lists_example =
    pkg_rdepends_lists 0 (on 1 ∷ on 2 ∷ []) three_entries
      (((λ e. absurd (omega (arith, e))), tt), (tt, tt))
      ((omega arith, refl), ((omega arith, refl), tt))

-- A second package of the name, with a dependency more: its new dependency is not entered, since
-- the first one lists the name already.
rdepends_missed :
    is_listed 0
      (pkg_rdepends 0 (on 1 ∷ on 2 ∷ []) (pkg_rdepends 0 (on 1 ∷ []) three_entries))
      (on 2)
    ≡ false
unfolding pkg_rdepends lists_name
rdepends_missed = refl

change_message-cmp_example :
    ((cmp_new two (record { oldpkg = some 0; newpkg = some 1 })
        ≡ says_installing (change_message two (some 0) (some 1)))
      × (cmp_remove two (record { oldpkg = some 0; newpkg = some 1 })
          ≡ says_purging (change_message two (some 0) (some 1))))
    × ((cmp_downgrade two (record { oldpkg = some 0; newpkg = some 1 })
          ≡ says_downgrading (change_message two (some 0) (some 1)))
        × (cmp_upgrade two (record { oldpkg = some 0; newpkg = some 1 })
            ≡ says_upgrading (change_message two (some 0) (some 1))))
change_message-cmp_example =
    change_message-cmp two (some 0) (some 1) (codes "1.0", (codes "1.0", (refl, refl)))

autoclean-Returns_example :
    Returns two no_flags fresh IsZero (autoclean two no_flags (lock_fuel fresh) (on 1 ∷ []) fresh)
unfolding fresh
autoclean-Returns_example =
    autoclean-Returns two no_flags (on 1 ∷ []) fresh two-IsDb fresh-IsNames (omega arith, tt)
