-- ===== src/Package/Dependency/Lists.antt =====
-- About the array of dependencies of apk-tools/src/package.c as a map from names: `apk_deps_add`
-- and `apk_deps_del`.
use mathlib.Core.Path.{subst}
use am_linux_terminal_robot.Common.{
  ℕ, ◌≡◌, ◌≢◌, refl, sym, ap, ◌∙◌, true, false, Option, none, some, List, [], ◌∷◌, ◌++◌, ◌==◌,
  if◌then◌else◌, arith, All, Bool-cases, inl, inr, ==_iff,
}
use am_linux_terminal_robot.Names.{Name}
use am_linux_terminal_robot.Package.Dependency.{
  Dependency, same_name, deps_add, deps_del, last_first,
}

-- The first entry for the name with an id.
pub find_dep : ℕ → List Dependency → Option Dependency
find_dep id [] = none
find_dep id (d ∷ deps) = if d.name.id == id then some d else find_dep id deps

-- No two entries have one name.
abbrev pub Distinct : List Dependency → Type 0
Distinct [] = Unit
Distinct (d ∷ deps) = All (λ (e : Dependency). e.name.id ≢ d.name.id) deps × Distinct deps

-- An addition is found under its name, and changes nothing that is found under another.
pub find_dep-deps_add :
    (deps : List Dependency) (dep : Dependency) (id : ℕ)
    → find_dep id (deps_add deps dep) ≡ (if dep.name.id == id then some dep else find_dep id deps)
unfolding find_dep deps_add
find_dep-deps_add [] dep id = refl
find_dep-deps_add (d ∷ deps) dep id = ground (arith, find_dep-deps_add deps dep id)

add_ne :
    (id : ℕ) (deps : List Dependency) (dep : Dependency)
    → All (λ (e : Dependency). e.name.id ≢ id) deps
    → dep.name.id ≢ id
    → All (λ (e : Dependency). e.name.id ≢ id) (deps_add deps dep)
unfolding deps_add
add_ne id [] dep h n = (n, tt)
add_ne id (d ∷ deps) dep h n = elim (Bool-cases (same_name d.name dep.name)) [
  | inl e ↦ rw e (n, h.1)
  | inr e ↦ rw e (h.0, add_ne id deps dep h.1 n)
]

replace_ne :
    (a b : ℕ) (deps : List Dependency)
    → a ≡ b
    → All (λ (e : Dependency). e.name.id ≢ a) deps
    → All (λ (e : Dependency). e.name.id ≢ b) deps
replace_ne a b [] e h = tt
replace_ne a b (d ∷ deps) e h = (λ p. h.0 (p ∙ sym e), replace_ne a b deps e h.1)

-- An addition keeps the names of the entries distinct.
pub deps_add-Distinct :
    (deps : List Dependency) (dep : Dependency) → Distinct deps → Distinct (deps_add deps dep)
unfolding deps_add
deps_add-Distinct [] dep h = (tt, tt)
deps_add-Distinct (d ∷ deps) dep h = elim (Bool-cases (same_name d.name dep.name)) [
  | inl e ↦
      rw e (replace_ne d.name.id dep.name.id deps ((==_iff d.name.id dep.name.id).0 e) h.0, h.1)
  | inr e ↦ rw e (add_ne d.name.id deps dep h.0 (λ p. ground arith), deps_add-Distinct deps dep h.1)
]

-- The last entry in front of the others.
abbrev Rotates : List Dependency → List Dependency → Type 0
Rotates [] ys = ys ≡ []
Rotates (x ∷ xs) [] = ⊥
Rotates (x ∷ xs) (y ∷ ys) = x ∷ xs ≡ ys ++ y ∷ []

last_first-Rotates : (xs : List Dependency) → Rotates xs (last_first xs)
unfolding last_first
last_first-Rotates [] = refl
last_first-Rotates (d ∷ []) = refl
last_first-Rotates (d ∷ e ∷ deps) = step (last_first (e ∷ deps)) (last_first-Rotates (e ∷ deps))
  where
    step :
        (ys : List Dependency)
        → Rotates (e ∷ deps) ys
        → Rotates (d ∷ e ∷ deps) (elim ys [ [] ↦ d ∷ [] | l ∷ r ↦ l ∷ d ∷ r ])
    step [] h = absurd h
    step (l ∷ r) h = ap (λ t. d ∷ t) h

last_holds :
    (id : ℕ) (xs : List Dependency) (y : Dependency)
    → All (λ (e : Dependency). e.name.id ≢ id) (xs ++ y ∷ [])
    → All (λ (e : Dependency). e.name.id ≢ id) xs × (y.name.id ≢ id)
last_holds id [] y h = (tt, h.0)
last_holds id (x ∷ xs) y h = let (rest, last) = last_holds id xs y h.1 in ((h.0, rest), last)

-- A list with its last entry in front keeps its entries distinct, and what is found in it.
Distinct-rotated :
    (ys : List Dependency) (y : Dependency) → Distinct (ys ++ y ∷ []) → Distinct (y ∷ ys)
Distinct-rotated [] y h = (tt, tt)
Distinct-rotated (z ∷ zs) y h =
    let (others, last) = last_holds z.name.id zs y h.0 in
    let (fresh, rest) = Distinct-rotated zs y h.1 in ((λ e. last (sym e), fresh), (others, rest))

find_rotated :
    (id : ℕ) (ys : List Dependency) (y : Dependency)
    → Distinct (ys ++ y ∷ [])
    → find_dep id (y ∷ ys) ≡ find_dep id (ys ++ y ∷ [])
unfolding find_dep
find_rotated id [] y h = refl
find_rotated id (z ∷ zs) y h =
    ground (arith, find_rotated id zs y h.1, (last_holds z.name.id zs y h.0).1)

-- What `last_first` does to a list of distinct entries.
abbrev SameEntries : List Dependency → List Dependency → Type 0
SameEntries xs ys = Distinct ys × ((id : ℕ) → find_dep id ys ≡ find_dep id xs)

rotated-SameEntries : (xs ys : List Dependency) → Distinct xs → Rotates xs ys → SameEntries xs ys
rotated-SameEntries [] ys h r = rw r (tt, λ id. refl)
rotated-SameEntries (x ∷ xs) [] h r = absurd r
rotated-SameEntries (x ∷ xs) (y ∷ ys) h r =
    rw r
      (Distinct-rotated ys y (subst Distinct r h), λ id. find_rotated id ys y (subst Distinct r h))

last_first-SameEntries : (xs : List Dependency) → Distinct xs → SameEntries xs (last_first xs)
last_first-SameEntries xs h = rotated-SameEntries xs (last_first xs) h (last_first-Rotates xs)

find_dep_absent :
    (id : ℕ) (deps : List Dependency)
    → All (λ (e : Dependency). e.name.id ≢ id) deps
    → find_dep id deps ≡ none
unfolding find_dep
find_dep_absent id [] h = refl
find_dep_absent id (d ∷ deps) h = ground (arith, find_dep_absent id deps h.1, h.0)

del_found :
    (d : Dependency) (deps : List Dependency) (name : Name) (id : ℕ)
    → Distinct (d ∷ deps)
    → same_name d.name name ≡ true
    → find_dep id (last_first deps) ≡ (if name.id == id then none else find_dep id (d ∷ deps))
unfolding find_dep
del_found d deps name id h e =
    (last_first-SameEntries deps h.1).1 id ∙ ground (arith, find_dep_absent d.name.id deps h.0)

del_here :
    (d : Dependency) (deps : List Dependency) (name : Name) (id : ℕ)
    → Distinct (d ∷ deps)
    → same_name d.name name ≡ true
    → find_dep id (deps_del (d ∷ deps) name)
      ≡ (if name.id == id then none else find_dep id (d ∷ deps))
unfolding deps_del
del_here d deps name id h e = rw e (del_found d deps name id h e)

del_there :
    (d : Dependency) (deps : List Dependency) (name : Name) (id : ℕ)
    → same_name d.name name ≡ false
    → find_dep id (deps_del deps name) ≡ (if name.id == id then none else find_dep id deps)
    → find_dep id (deps_del (d ∷ deps) name)
      ≡ (if name.id == id then none else find_dep id (d ∷ deps))
unfolding deps_del find_dep
del_there d deps name id e ih = rw e (ground arith)

-- Of distinct entries the one for the name is deleted, and what is found under another name stays.
pub find_dep-deps_del :
    (deps : List Dependency) (name : Name) (id : ℕ)
    → Distinct deps
    → find_dep id (deps_del deps name) ≡ (if name.id == id then none else find_dep id deps)
find_dep-deps_del [] name id h = unfold find_dep deps_del in ground arith
find_dep-deps_del (d ∷ deps) name id h = elim (Bool-cases (same_name d.name name)) [
  | inl e ↦ del_here d deps name id h e
  | inr e ↦ del_there d deps name id e (find_dep-deps_del deps name id h.1)
]

ne_rotated :
    (a : ℕ) (xs ys : List Dependency)
    → All (λ (e : Dependency). e.name.id ≢ a) xs
    → Rotates xs ys
    → All (λ (e : Dependency). e.name.id ≢ a) ys
ne_rotated a [] ys h r = rw r tt
ne_rotated a (x ∷ xs) [] h r = absurd r
ne_rotated a (x ∷ xs) (y ∷ ys) h r =
    let (others, last) = last_holds a ys y (subst (All (λ (e : Dependency). e.name.id ≢ a)) r h) in
    (last, others)

del_ne :
    (a : ℕ) (deps : List Dependency) (name : Name)
    → All (λ (e : Dependency). e.name.id ≢ a) deps
    → All (λ (e : Dependency). e.name.id ≢ a) (deps_del deps name)
unfolding deps_del
del_ne a [] name h = tt
del_ne a (d ∷ deps) name h = elim (Bool-cases (same_name d.name name)) [
  | inl e ↦ rw e (ne_rotated a deps (last_first deps) h.1 (last_first-Rotates deps))
  | inr e ↦ rw e (h.0, del_ne a deps name h.1)
]

-- A deletion keeps the names of the entries distinct.
pub deps_del-Distinct :
    (deps : List Dependency) (name : Name) → Distinct deps → Distinct (deps_del deps name)
unfolding deps_del
deps_del-Distinct [] name h = tt
deps_del-Distinct (d ∷ deps) name h = elim (Bool-cases (same_name d.name name)) [
  | inl e ↦ rw e (last_first-SameEntries deps h.1).0
  | inr e ↦ rw e (del_ne d.name.id deps name h.0, deps_del-Distinct deps name h.1)
]
