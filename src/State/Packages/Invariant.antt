-- ===== src/State/Packages/Invariant.antt =====
-- About the packages and names of a database of apk-tools/src/database.c, as the solver finds them.
use mathlib.Core.Path.{subst}
use am_linux_terminal_robot.Common.{
  ℕ, zero, suc, ◌+◌, ◌<◌, ◌≡◌, refl, sym, ap, ◌∙◌, Option, none, some, List, [], ◌∷◌, ◌++◌, length,
  All, All-append, get_or, set, arith, Bool-cases, inl, inr,
}
use am_linux_terminal_robot.Blob.Checksum.{Checksum}
use am_linux_terminal_robot.Hash.{length-set}
use am_linux_terminal_robot.Package.Dependency.{Dependency}
use am_linux_terminal_robot.State.{Candidate, NameEntry}
use am_linux_terminal_robot.State.Packages.{
  Listed, Store, no_candidate, new_entry, entry_at, candidate_at, lists_name, pkg_rdepends, merged,
  with_pkg, add_found, pkg_add,
}

-- What holds of the new value, if it is read, and of the old one, holds behind a write.
pub at_set :
    {A : Type 0}
    → (P : A → Type 0) (xs : List A) (i n : ℕ) (x d : A) → (i ≡ n → P x)
    → P (get_or xs n d)
    → P (get_or (set xs i x) n d)
at_set P [] i n x d h g = g
at_set P (y ∷ xs) zero zero x d h g = h refl
at_set P (y ∷ xs) zero (suc n) x d h g = g
at_set P (y ∷ xs) (suc i) zero x d h g = g
at_set P (y ∷ xs) (suc i) (suc n) x d h g = at_set P xs i n x d (λ e. h (ap suc e)) g

get_or-append :
    {A : Type 0}
    → (xs : List A) (x d : A) (n : ℕ) → n < length xs
    → get_or (xs ++ x ∷ []) n d ≡ get_or xs n d
get_or-append [] x d n h = absurd (omega arith)
get_or-append (y ∷ xs) x d zero h = refl
get_or-append (y ∷ xs) x d (suc n) h = get_or-append xs x d n (omega arith)

get_or_last : {A : Type 0} → (xs : List A) (x d : A) → get_or (xs ++ x ∷ []) (length xs) d ≡ x
get_or_last [] x d = refl
get_or_last (y ∷ xs) x d = get_or_last xs x d

pub length_snoc : {A : Type 0} → (xs : List A) (x : A) → length (xs ++ x ∷ []) ≡ length xs + 1
length_snoc [] x = refl
length_snoc (y ∷ xs) x = omega (arith, length_snoc xs x)

-- A package is one of the candidates, with the name.
pub record IsAt (candidates : List Candidate) (name pkg : ℕ) : Type 0 where
  pub inside : pkg < length candidates
  pub named : (candidate_at candidates pkg).name ≡ name

pub record IsEntry (candidates : List Candidate) (num name : ℕ) (e : NameEntry) : Type 0 where
  pub owned : All (IsAt candidates name) e.pkgs
  pub below : All (λ n. n < num) e.rdepends

abbrev pub AreEntries : List Candidate → ℕ → List NameEntry → Type 0
AreEntries candidates num entries = (name : ℕ) → IsEntry candidates num name (entry_at entries name)

-- The packages that a name has are packages of the name, and the names that depend on it are
-- names of the database.
abbrev pub IsStore : Store → Type 0
IsStore st = AreEntries st.candidates (length st.entries) st.entries

pub All-mono :
    {A : Type 0} (P Q : A → Type 0) → ((x : A) → P x → Q x) → (xs : List A) → All P xs → All Q xs
All-mono P Q f [] h = tt
All-mono P Q f (x ∷ xs) h = (f x h.0, All-mono P Q f xs h.1)

module _ (candidates : List Candidate) (num name : ℕ) (l : name < num) where
  pub pkg_rdepends-AreEntries :
      (deps : List Dependency) (entries : List NameEntry)
      → AreEntries candidates num entries
      → AreEntries candidates num (pkg_rdepends name deps entries)
  unfolding pkg_rdepends
  pkg_rdepends-AreEntries [] entries h = h
  pkg_rdepends-AreEntries (dep ∷ deps) entries h =
      elim (Bool-cases (lists_name name (entry_at entries dep.name.id).rdepends)) [
        | inl e ↦ rw e h
        | inr e ↦ rw e (
            pkg_rdepends-AreEntries deps _ (λ n.
              at_set (IsEntry candidates num n) entries dep.name.id n _ new_entry (extended n)
                (h n)))
      ]
    where
      extended :
          (n : ℕ)
          → dep.name.id ≡ n
          → IsEntry candidates num n (record (entry_at entries dep.name.id) {
            rdepends = (entry_at entries dep.name.id).rdepends ++ name ∷ [];
          })
      extended n e =
          let o =
            subst (λ m. IsEntry candidates num m (entry_at entries dep.name.id)) e
              (h dep.name.id) in
          record {
            owned = o.owned;
            below =
                All-append (λ n. n < num) (entry_at entries dep.name.id).rdepends _ o.below (l, tt);
          }

length-pkg_rdepends :
    (name : ℕ) (deps : List Dependency) (entries : List NameEntry)
    → length (pkg_rdepends name deps entries) ≡ length entries
unfolding pkg_rdepends
length-pkg_rdepends name [] entries = refl
length-pkg_rdepends name (dep ∷ deps) entries =
    elim (Bool-cases (lists_name name (entry_at entries dep.name.id).rdepends)) [
      | inl e ↦ rw e refl
      | inr e ↦ rw e (length-pkg_rdepends name deps _ ∙ length-set entries dep.name.id _)
    ]

-- A name stays that of a package that is merged with another one.
merged_name :
    (cs : List Candidate) (i p : ℕ) (pkg : Candidate)
    → (candidate_at (set cs i (merged (candidate_at cs i) pkg)) p).name ≡ (candidate_at cs p).name
merged_name cs i p pkg =
    at_set (λ c. c.name ≡ (candidate_at cs p).name) cs i p (merged (candidate_at cs i) pkg)
      no_candidate (λ e. ap (λ i. (candidate_at cs i).name) e) refl

merged-IsAt :
    (cs : List Candidate) (i name p : ℕ) (pkg : Candidate)
    → IsAt cs name p
    → IsAt (set cs i (merged (candidate_at cs i) pkg)) name p
merged-IsAt cs i name p pkg h = record {
  inside = omega (arith, h.inside, length-set cs i (merged (candidate_at cs i) pkg));
  named = merged_name cs i p pkg ∙ h.named;
}

added-IsAt :
    (cs : List Candidate) (pkg : Candidate) (name p : ℕ)
    → IsAt cs name p
    → IsAt (cs ++ pkg ∷ []) name p
added-IsAt cs pkg name p h = record {
  inside = omega (arith, h.inside, length_snoc cs pkg);
  named = ap (λ c. c.name) (get_or-append cs pkg no_candidate p h.inside) ∙ h.named;
}

added_last : (cs : List Candidate) (pkg : Candidate) → IsAt (cs ++ pkg ∷ []) pkg.name (length cs)
added_last cs pkg = record {
  inside = omega (arith, length_snoc cs pkg);
  named = ap (λ c. c.name) (get_or_last cs pkg no_candidate);
}

-- The candidates change in such a way that the packages of a name stay packages of it.
moved_entries :
    (cs cs' : List Candidate) (num : ℕ) (entries : List NameEntry)
    → ((name p : ℕ) → IsAt cs name p → IsAt cs' name p)
    → AreEntries cs num entries
    → AreEntries cs' num entries
moved_entries cs cs' num entries f h name =
    let e = h name in
    record { owned = All-mono (IsAt cs name) (IsAt cs' name) (f name) _ e.owned; below = e.below }

with_pkg-AreEntries :
    (cs : List Candidate) (num name p : ℕ) (entries : List NameEntry)
    → IsAt cs name p
    → AreEntries cs num entries
    → AreEntries cs num (with_pkg entries name p)
with_pkg-AreEntries cs num name p entries a h n =
    at_set (IsEntry cs num n) entries name n _ new_entry here (h n)
  where
    here :
        name ≡ n
        → IsEntry cs num n
            (record (entry_at entries name) { pkgs = (entry_at entries name).pkgs ++ p ∷ [] })
    here e =
        let o = h name in
        record {
          owned =
              subst (λ m. All (IsAt cs m) ((entry_at entries name).pkgs ++ p ∷ [])) e
                (All-append (IsAt cs name) (entry_at entries name).pkgs _ o.owned (a, tt));
          below = o.below;
        }

length-add_found :
    (st : Store) (csum : Checksum) (pkg : Candidate) (idb : Option Listed)
    → length (add_found st csum pkg idb).0.entries ≡ length st.entries
length-add_found st csum pkg none =
    length-pkg_rdepends pkg.name pkg.depends _ ∙ length-set st.entries pkg.name _
length-add_found st csum pkg (some idb) = refl

-- apk_db_pkg_add keeps the number of names.
pub length-pkg_add :
    (st : Store) (csum : Checksum) (pkg : Candidate)
    → length (pkg_add st csum pkg).0.entries ≡ length st.entries
unfolding pkg_add
length-pkg_add st csum pkg = length-add_found st csum pkg _

found-AreEntries :
    (st : Store) (csum : Checksum) (pkg : Candidate) (idb : Option Listed)
    → pkg.name < length st.entries
    → IsStore st
    → AreEntries
        (add_found st csum pkg idb).0.candidates
        (length st.entries)
        (add_found st csum pkg idb).0.entries
found-AreEntries st csum pkg none l h =
    let cs = st.candidates ++ pkg ∷ [] in
    let num = length st.entries in
    pkg_rdepends-AreEntries cs num pkg.name l pkg.depends _ (
      with_pkg-AreEntries cs num pkg.name (length st.candidates) st.entries
        (added_last st.candidates pkg)
        (moved_entries st.candidates cs num st.entries
          (λ name p a. added-IsAt st.candidates pkg name p a) h))
found-AreEntries st csum pkg (some idb) l h =
    moved_entries st.candidates _ (length st.entries) st.entries
      (λ name p a. merged-IsAt st.candidates idb.pkg name p pkg a) h

-- apk_db_pkg_add, of a package whose name is one of the database, keeps every package with its
-- name and every dependant among the names.
pub pkg_add-IsStore :
    (st : Store) (csum : Checksum) (pkg : Candidate)
    → pkg.name < length st.entries
    → IsStore st
    → IsStore (pkg_add st csum pkg).0
unfolding pkg_add
pkg_add-IsStore st csum pkg l h =
    subst (λ n. AreEntries (pkg_add st csum pkg).0.candidates n (pkg_add st csum pkg).0.entries)
      (sym (length-pkg_add st csum pkg)) (found-AreEntries st csum pkg _ l h)
