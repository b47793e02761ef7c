-- ===== src/State/Packages/Dependants.antt =====
-- About the names that apk_db_pkg_rdepends of apk-tools/src/database.c enters as dependants.
use mathlib.Core.Path.{subst}
use am_linux_terminal_robot.Common.{
  ℕ, ◌<◌, ◌≡◌, ◌≢◌, refl, sym, ap, ◌∙◌, Bool, true, false, List, [], ◌∷◌, ◌++◌, ◌==◌, if◌then◌else◌,
  length, All, set, Bool-cases, inl, inr, arith, ==_refl,
}
use am_linux_terminal_robot.Hash.{length-set, get_or-set}
use am_linux_terminal_robot.Package.Dependency.{Dependency}
use am_linux_terminal_robot.Package.Dependency.Lists.{Distinct}
use am_linux_terminal_robot.State.{NameEntry}
use am_linux_terminal_robot.State.Packages.{entry_at, new_entry, lists_name, pkg_rdepends}
use am_linux_terminal_robot.State.Packages.Invariant.{at_set}

-- The name is among the dependants of the dependency's name.
abbrev pub is_listed : ℕ → List NameEntry → Dependency → Bool
is_listed name entries dep = lists_name name (entry_at entries dep.name.id).rdepends

lists_there :
    (name n : ℕ) (names : List ℕ)
    → lists_name n names ≡ true
    → lists_name n (names ++ name ∷ []) ≡ true
unfolding lists_name
lists_there name n [] h = cc
lists_there name n (m ∷ names) h = elim (Bool-cases (m == n)) [
  | inl e ↦ rw e refl
  | inr e ↦ rw e (lists_there name n names (rw e at h))
]

lists_last : (name : ℕ) (names : List ℕ) → lists_name name (names ++ name ∷ []) ≡ true
unfolding lists_name
lists_last name [] = rw (==_refl name) refl
lists_last name (m ∷ names) = elim (Bool-cases (m == name)) [
  | inl e ↦ rw e refl
  | inr e ↦ rw e (lists_last name names)
]

module _ (name : ℕ) where
  abbrev entered : List NameEntry → Dependency → List NameEntry
  entered entries dep = set entries dep.name.id (record (entry_at entries dep.name.id) {
    rdepends = (entry_at entries dep.name.id).rdepends ++ name ∷ [];
  })

  -- What is listed stays so.
  rdepends_stay :
      (deps : List Dependency) (entries : List NameEntry) (m : ℕ)
      → lists_name name (entry_at entries m).rdepends ≡ true
      → lists_name name (entry_at (pkg_rdepends name deps entries) m).rdepends ≡ true
  unfolding pkg_rdepends
  rdepends_stay [] entries m h = h
  rdepends_stay (dep ∷ deps) entries m h = elim (Bool-cases (is_listed name entries dep)) [
    | inl e ↦ rw e h
    | inr e ↦ rw e (
        rdepends_stay deps (entered entries dep) m (
          at_set (λ x. lists_name name x.rdepends ≡ true) entries dep.name.id m _ new_entry
            (λ _. lists_last name (entry_at entries dep.name.id).rdepends) h))
  ]

  abbrev pub IsNew : List NameEntry → Dependency → Type 0
  IsNew entries dep = (dep.name.id < length entries) × (is_listed name entries dep ≡ false)

  entered-IsNew :
      (entries : List NameEntry) (dep : Dependency) (deps : List Dependency)
      → All (λ (e : Dependency). e.name.id ≢ dep.name.id) deps
      → All (IsNew entries) deps
      → All (IsNew (entered entries dep)) deps
  entered-IsNew entries dep [] d h = tt
  entered-IsNew entries dep (e ∷ deps) d h = (
    (
      omega (arith, h.0.0, length-set entries dep.name.id _),
      at_set (λ x. lists_name name x.rdepends ≡ false) entries dep.name.id e.name.id _ new_entry
          (λ q. absurd (d.0 (sym q))) h.0.1,
    ),
    entered-IsNew entries dep deps d.1 h.1,
  )

  lists_entered :
      (entries : List NameEntry) (dep : Dependency)
      → dep.name.id < length entries
      → is_listed name (entered entries dep) dep ≡ true
  lists_entered entries dep l =
      let i = dep.name.id in
      let old = entry_at entries i in
      let new : NameEntry = record old { rdepends = old.rdepends ++ name ∷ [] } in
      subst (λ e. lists_name name e.rdepends ≡ true)
        (sym (
          get_or-set entries i i new new_entry l
          ∙ ap (λ b. if b then new else entry_at entries i) (==_refl i)))
        (lists_last name old.rdepends)

  enters :
      (entries : List NameEntry) (dep : Dependency) (deps : List Dependency)
      → is_listed name entries dep ≡ false
      → pkg_rdepends name (dep ∷ deps) entries ≡ pkg_rdepends name deps (entered entries dep)
  unfolding pkg_rdepends
  enters entries dep deps e = rw e refl

  -- apk_db_pkg_rdepends enters the package's name as a dependant of every dependency of the package,
  -- if the dependencies are on different names of the database and none of them has the name as a
  -- dependant already.
  pub pkg_rdepends_lists :
      (deps : List Dependency) (entries : List NameEntry)
      → Distinct deps
      → All (IsNew entries) deps
      → All (λ dep. is_listed name (pkg_rdepends name deps entries) dep ≡ true) deps
  pkg_rdepends_lists [] entries d h = tt
  pkg_rdepends_lists (dep ∷ deps) entries d h =
      subst (λ es. All (λ dep. is_listed name es dep ≡ true) (dep ∷ deps))
        (sym (enters entries dep deps h.0.1))
        (
          rdepends_stay deps (entered entries dep) dep.name.id (lists_entered entries dep h.0.0),
          pkg_rdepends_lists deps (entered entries dep) d.1
              (entered-IsNew entries dep deps d.0 h.1),
        )
