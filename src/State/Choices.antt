-- ===== src/State/Choices.antt =====
-- apk-tools/src/state.c, lines 100 to 148 and 297 to 307: the candidates of a name, and the loop that
-- removes those that a test refuses.
pub mod Filter
use am_linux_terminal_robot.Common.{
  ℕ, zero, suc, Bool, true, false, Option, none, some, List, [], ◌∷◌, ◌==◌, if◌then◌else◌, length,
  take, ◌%◌, ◌^◌,
}
use am_linux_terminal_robot.Package.Dependency.{Dependency}
use am_linux_terminal_robot.Package.Info.{FileName, null_file, uninstallable, file_name}
use am_linux_terminal_robot.State.{Db, NameState, choices, ns_from_pkg, provides}

-- `pkgs[i] = pkgs[num - 1]; num--` for the entries behind the one at `i`.
unfoldable pub last_to_front : List ℕ → List ℕ
last_to_front [] = []
last_to_front (x ∷ []) = x ∷ []
last_to_front (x ∷ y ∷ xs) = elim (last_to_front (y ∷ xs)) [ [] ↦ x ∷ [] | l ∷ r ↦ l ∷ x ∷ r ]

-- The loop over `pkgs`; a round passes an entry or removes one, so their number is enough fuel.
unfoldable pub prune_loop : (ℕ → Bool) → ℕ → List ℕ → List ℕ
prune_loop test zero pkgs = pkgs
prune_loop test (suc fuel) [] = []
prune_loop test (suc fuel) (p ∷ pkgs) = elim (test p) [
  | true ↦ p ∷ prune_loop test fuel pkgs
  | false ↦ prune_loop test fuel (last_to_front pkgs)
]

abbrev pub prune_choices : (ℕ → Bool) → List ℕ → List ℕ
prune_choices test pkgs = prune_loop test (length pkgs) pkgs

abbrev pub is_installable : FileName → Bool
is_installable null_file = true
is_installable uninstallable = false
is_installable (file_name s) = true

-- The loop over the dependencies of the world, for those on the name.
unfoldable pub prune_world : Db → ℕ → List Dependency → List ℕ → List ℕ
prune_world db name [] pkgs = pkgs
prune_world db name (dep ∷ deps) pkgs =
    prune_world db name deps
      (if dep.name.id == name then prune_choices (provides db dep) pkgs else pkgs)

abbrev pub installable : Db → List ℕ → List ℕ
installable db pkgs = prune_choices (λ p. is_installable (db.candidate p).filename) pkgs

-- The packages that `num`, an unsigned short, counts.
abbrev pub counted_pkgs : List ℕ → List ℕ
counted_pkgs pkgs = take (length pkgs % 2 ^ 16) pkgs

-- name_choices_new, of which none is a null pointer
unfoldable pub name_choices_new : Db → ℕ → Option (List ℕ)
name_choices_new db name =
    let e = db.entry name in
    let pkgs = counted_pkgs e.pkgs in
    if length e.pkgs == 0
    then none
    else if e.toplevel_override
    then some (installable db pkgs)
    else some (prune_world db name db.world (installable db pkgs))

-- ns_from_choices
abbrev pub ns_from_choices : Option (List ℕ) → NameState
ns_from_choices none = ns_from_pkg none
ns_from_choices (some c) = choices c
