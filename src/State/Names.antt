-- ===== src/State/Names.antt =====
-- About the array of the names' states in struct apk_state: how many of them still change, and whose
-- packages they hold.
use am_linux_terminal_robot.Common.{
  ℕ, zero, suc, ◌+◌, ◌<◌, ◌≤◌, ◌≡◌, refl, sym, ap, ◌∙◌, Bool, true, false, none, some, List, [],
  ◌∷◌, ◌==◌, if◌then◌else◌, length, All, get_or, set, arith, Bool-cases, inl, inr, ==_iff,
}
use mathlib.Core.Path.{subst}
use am_linux_terminal_robot.Hash.{length-set, get_or-set}
use am_linux_terminal_robot.State.{Db, NameState, empty, locked, choices, empty_names}

abbrev pub bit : Bool → ℕ
bit true = 1
bit false = 0

unfoldable pub count : (NameState → Bool) → List NameState → ℕ
count f [] = 0
count f (s ∷ names) = bit (f s) + count f names

pub count-set :
    (f : NameState → Bool) (names : List NameState) (i : ℕ) (s : NameState)
    → i < length names
    → count f (set names i s) + bit (f (get_or names i empty)) ≡ count f names + bit (f s)
unfolding count
count-set f [] i s h = absurd (omega arith)
count-set f (x ∷ names) zero s h = omega arith
count-set f (x ∷ names) (suc i) s h = omega (arith, count-set f names i s (omega arith))

pub count-le-length : (f : NameState → Bool) (names : List NameState) → count f names ≤ length names
unfolding count
count-le-length f [] = omega arith
count-le-length f (x ∷ names) = elim (Bool-cases (f x)) [
  | inl e ↦ rw e (omega (arith, count-le-length f names))
  | inr e ↦ rw e (omega (arith, count-le-length f names))
]

-- A name is settled once it is locked with nothing pending.
abbrev pub is_unsettled : NameState → Bool
is_unsettled empty = true
is_unsettled (locked pkg pending error) = pending
is_unsettled (choices c) = true

-- A name is gone once it is locked to no package.
abbrev pub is_live : NameState → Bool
is_live empty = true
is_live (locked none pending error) = false
is_live (locked (some pkg) pending error) = true
is_live (choices c) = true

abbrev pub unsettled : List NameState → ℕ
unsettled names = count is_unsettled names

abbrev pub live : List NameState → ℕ
live names = count is_live names

module _ (db : Db) where
  abbrev pub IsOf : ℕ → ℕ → Type 0
  IsOf name pkg = (db.candidate pkg).name ≡ name

  -- The packages that a name's state holds are packages of the name.
  abbrev pub IsOwned : ℕ → NameState → Type 0
  IsOwned name empty = Unit
  IsOwned name (locked none pending error) = Unit
  IsOwned name (locked (some pkg) pending error) = IsOf name pkg
  IsOwned name (choices c) = All (IsOf name) c

  -- The packages of a name have it for their name, and the names that depend on it have ids below
  -- the number of names.
  pub record IsDb (num : ℕ) : Type 0 where
    pub owned : (name : ℕ) → All (IsOf name) (db.entry name).pkgs
    pub rdepends_below : (name : ℕ) → All (λ n. n < num) (db.entry name).rdepends

  pub record IsNames (num : ℕ) (names : List NameState) : Type 0 where
    pub size : length names ≡ num
    pub holds : (name : ℕ) → IsOwned name (get_or names name empty)

  pub set-IsNames :
      {num : ℕ} (names : List NameState) (i : ℕ) (s : NameState)
      → IsNames num names
      → i < num
      → IsOwned i s
      → IsNames num (set names i s)
  set-IsNames {num} names i s h l o = record {
    size = length-set names i s ∙ h.size;
    holds = λ name. elim (Bool-cases (i == name)) [
      | inl e ↦
          subst (IsOwned name)
            (sym (
              get_or-set names i name s empty (omega (arith, h.size))
              ∙ ap (λ b. if b then s else get_or names name empty) e))
            (subst (λ n. IsOwned n s) ((==_iff i name).0 e) o)
      | inr e ↦
          subst (IsOwned name)
            (sym (
              get_or-set names i name s empty (omega (arith, h.size))
              ∙ ap (λ b. if b then s else get_or names name empty) e))
            (h.holds name)
    ];
  }

  pub get_or-empty_names : (n name : ℕ) → get_or (empty_names n) name empty ≡ empty
  get_or-empty_names zero name = refl
  get_or-empty_names (suc n) zero = refl
  get_or-empty_names (suc n) (suc name) = get_or-empty_names n name

  pub length-empty_names : (n : ℕ) → length (empty_names n) ≡ n
  length-empty_names zero = refl
  length-empty_names (suc n) = omega (arith, length-empty_names n)

  pub empty_names-IsNames : (n : ℕ) → IsNames n (empty_names n)
  empty_names-IsNames n = record {
    size = length-empty_names n;
    holds = λ name. subst (IsOwned name) (sym (get_or-empty_names n name)) tt;
  }
