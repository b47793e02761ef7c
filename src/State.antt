-- ===== src/State.antt =====
-- apk-tools/src/state.c and apk_state.h: the solver, which locks every name to one of its packages.
-- A pointer to a package is a number that the database maps to the package, and a name is its id;
-- a null pointer is none. The structure is that which the solver reads: the fields of
-- struct apk_package, struct apk_name and struct apk_database that state.c uses.
pub mod Choices
pub mod Names
pub mod Prune
pub mod Lock
pub mod Applets
pub mod Packages
pub mod Changes
pub mod Clean
mod Tests
use am_linux_terminal_robot.Common.{
  ℕ, zero, suc, ◌+◌, ◌-◌, ◌*◌, ◌^◌, ◌/◌, ◌%◌, Bool, true, false, ◌&&◌, ◌||◌, not, Option, none,
  some, List, [], ◌∷◌, ◌++◌, Bytes, ◌==◌, if◌then◌else◌, ltb, leb, length, ℤ, pos, int_of_word,
  eqb_ℤ,
}
use Prim.Native.Nat.{bit_and}
use am_linux_terminal_robot.Blob.Scan.{c_string}
use am_linux_terminal_robot.Version.Compare.{compare_blob}
use am_linux_terminal_robot.Package.Dependency.{Dependency}
use am_linux_terminal_robot.Package.Info.{FileName, null_file, uninstallable, file_name}

-- struct apk_package; `ipkg` is that it is not null.
pub record Candidate : Type 0 where
  pub name : ℕ
  pub version : Option Bytes
  pub depends : List Dependency
  pub ipkg : Bool
  pub installed_size : ℕ
  pub filename : FileName
  pub repos : ℕ

-- struct apk_name, its flags by their bits
pub record NameEntry : Type 0 where
  pub toplevel : Bool
  pub reinstall : Bool
  pub toplevel_override : Bool
  pub pkgs : List ℕ
  pub rdepends : List ℕ

-- struct apk_database. `cached` is what faccessat finds in the cache directory for the file name
-- that apk_pkg_format_cache gives a package.
pub record Db : Type 0 where
  pub candidate : ℕ → Candidate
  pub entry : ℕ → NameEntry
  pub world : List Dependency
  pub local_repos : ℕ
  pub bad_repos : ℕ
  pub cached : Candidate → Bool

-- The flags of the process that the solver reads.
pub record Flags : Type 0 where
  pub upgrade : Bool
  pub prefer_available : Bool
  pub no_network : Bool

-- apk_name_state_t: a null pointer, a package with the bits APK_NS_LOCKED and, as they are set,
-- APK_NS_PENDING and APK_NS_ERROR, or the choices. Their reference count is always one, since no
-- function raises it, so they are never copied.
pub data NameState : Type 0 where
  empty : NameState
  locked : Option ℕ → Bool → Bool → NameState
  choices : List ℕ → NameState

-- ns_from_pkg, ns_from_pkg_non_pending, ns_pending, ns_error
abbrev pub ns_from_pkg : Option ℕ → NameState
ns_from_pkg pkg = locked pkg true false

abbrev pub ns_from_pkg_non_pending : Option ℕ → NameState
ns_from_pkg_non_pending pkg = locked pkg false false

-- struct apk_change
pub record Change : Type 0 where
  pub oldpkg : Option ℕ
  pub newpkg : Option ℕ

-- struct apk_state
pub record SolverState : Type 0 where
  pub refs : ℕ
  pub names : List NameState
  pub changes : List Change
  pub conflicts : List ℕ
  pub missing : List ℕ

abbrev pub num_names : SolverState → ℕ
num_names st = length st.names

abbrev pub empty_names : ℕ → List NameState
empty_names zero = []
empty_names (suc n) = empty ∷ empty_names n

-- What apk_state_new sets up, for a database with `name_id` names
unfoldable pub new_state : ℕ → SolverState
new_state name_id = record {
  refs = 1;
  names = empty_names name_id;
  changes = [];
  conflicts = [];
  missing = [];
}

-- The bytes of struct apk_state and a pointer for each name, on a machine with pointers of eight
-- bytes, and the `int` that they are counted in.
abbrev pub state_size : ℕ → ℕ
state_size name_id = 48 + name_id * 8

abbrev pub num_bytes : ℕ → ℤ
num_bytes name_id = int_of_word (state_size name_id % 2 ^ 32)

-- apk_state_new. Where the `int` is not the number of bytes needed, `calloc` gives a null pointer or
-- memory without room for all names: there is no state then.
unfoldable pub state_new : ℕ → Option SolverState
state_new name_id =
    if eqb_ℤ (num_bytes name_id) (pos (state_size name_id)) then some (new_state name_id) else none

-- apk_state_dup
unfoldable pub state_dup : SolverState → SolverState
state_dup st = record st { refs = st.refs + 1 }

-- apk_state_unref; none: the state is freed.
unfoldable pub state_unref : SolverState → Option SolverState
state_unref st = if ltb 0 (st.refs - 1) then some (record st { refs = st.refs - 1 }) else none

-- apk_state_add_change
abbrev pub add_change : SolverState → Option ℕ → Option ℕ → SolverState
add_change st oldpkg newpkg = record st {
  changes = st.changes ++ record { oldpkg = oldpkg; newpkg = newpkg } ∷ [];
}

-- APK_BLOB_STR of a version
abbrev pub version_blob : Option Bytes → Option Bytes
version_blob none = none
version_blob (some s) = some (c_string s)

-- apk_version_compare
abbrev pub version_compare : Option Bytes → Option Bytes → ℕ
version_compare a b = compare_blob (version_blob a) (version_blob b)

-- The bits of `a` that are not in `b`.
abbrev pub and_not : ℕ → ℕ → ℕ
and_not a b = a - bit_and a b

-- The loop of apk_db_select_repo over the APK_MAX_REPOS = 32 repositories.
unfoldable pub first_repo : ℕ → ℕ → ℕ → Option ℕ
first_repo zero i repos = none
first_repo (suc left) i repos =
    let rest = first_repo left (suc i) repos in if bit_and repos (2 ^ i) == 0 then rest else some i

abbrev pub max_repos : ℕ
max_repos = 32

module _ (db : Db) (flags : Flags) where
  -- apk_db_select_repo: none is a null pointer, and the repository `some none` is the cache.
  abbrev is_remote : Option ℕ → Bool
  is_remote none = true
  is_remote (some i) = bit_and db.local_repos (2 ^ i) == 0 && flags.no_network

  abbrev usable_repos : Candidate → ℕ
  usable_repos p =
      let repos = and_not p.repos db.bad_repos in
      if bit_and repos db.local_repos == 0 then repos else bit_and repos db.local_repos

  unfoldable pub select_repo : Candidate → Option (Option ℕ)
  select_repo p =
      let i = first_repo max_repos 0 (usable_repos p) in
      if is_remote i && not (db.cached p) then none else some i

  abbrev has_repo : Option (Option ℕ) → Bool
  has_repo none = false
  has_repo (some i) = true

  abbrev pub has_file : FileName → Bool
  has_file null_file = false
  has_file uninstallable = true
  has_file (file_name s) = true

  -- apk_state_pkg_available
  unfoldable pub pkg_available : ℕ → Bool
  pkg_available pkg =
      let p = db.candidate pkg in
      p.ipkg || p.installed_size == 0 || has_file p.filename || has_repo (select_repo p)

-- apk_version_compare(pkg->version, dep->version) & dep->result_mask
unfoldable pub provides : Db → Dependency → ℕ → Bool
provides db dep pkg =
    let p = db.candidate pkg in
    not (bit_and (version_compare p.version dep.version) dep.result_mask == 0)
