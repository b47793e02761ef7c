-- ===== src/State/Packages.antt =====
-- apk-tools/src/database.c, lines 400 to 439: the packages of a database as they are added, with the
-- names that depend on each name. A package is its index among `candidates`, a name its index among
-- `entries`; what apk_pkg_free frees has no model.
pub mod Invariant
pub mod Built
pub mod Dependants
use am_linux_terminal_robot.Common.{
  ℕ, Bool, true, false, ◌||◌, ◌+◌, Option, none, some, List, [], ◌∷◌, ◌++◌, Bytes, ◌==◌,
  if◌then◌else◌, length, get_or, set,
}
use Prim.Native.Nat.{bit_or}
use am_linux_terminal_robot.Blob.Scan.{compare}
use am_linux_terminal_robot.Blob.Checksum.{Checksum, csum_blob}
use am_linux_terminal_robot.Hash.{HashOps, Hash, get, insert}
use am_linux_terminal_robot.Files.{csum_hash}
use am_linux_terminal_robot.Package.Dependency.{Dependency}
use am_linux_terminal_robot.Package.Info.{FileName, null_file, uninstallable, file_name}
use am_linux_terminal_robot.State.{Candidate, NameEntry, Db}

-- A package of `db->available.packages`.
pub record Listed : Type 0 where
  pub csum : Checksum
  pub pkg : ℕ

-- pkg_info_hash_ops
abbrev pub listed_ops : HashOps Bytes Listed
listed_ops = record {
  get_key = λ item. csum_blob item.csum;
  hash_key = csum_hash;
  hash_item = none;
  compare = compare;
  compare_item = none;
}

pub record Store : Type 0 where
  pub packages : Hash Listed
  pub candidates : List Candidate
  pub entries : List NameEntry

abbrev pub no_candidate : Candidate
no_candidate = record {
  name = 0;
  version = none;
  depends = [];
  ipkg = false;
  installed_size = 0;
  filename = null_file;
  repos = 0;
}

abbrev pub new_entry : NameEntry
new_entry = record {
  toplevel = false;
  reinstall = false;
  toplevel_override = false;
  pkgs = [];
  rdepends = [];
}

abbrev pub entry_at : List NameEntry → ℕ → NameEntry
entry_at entries name = get_or entries name new_entry

abbrev pub candidate_at : List Candidate → ℕ → Candidate
candidate_at candidates pkg = get_or candidates pkg no_candidate

-- The loop over `rdepends`
unfoldable pub lists_name : ℕ → List ℕ → Bool
lists_name name [] = false
lists_name name (n ∷ names) = n == name || lists_name name names

-- apk_db_pkg_rdepends: it returns at the first dependency that lists the package's name.
unfoldable pub pkg_rdepends : ℕ → List Dependency → List NameEntry → List NameEntry
pkg_rdepends name [] entries = entries
pkg_rdepends name (dep ∷ deps) entries =
    let rname = entry_at entries dep.name.id in
    let rest =
      pkg_rdepends name deps
        (set entries dep.name.id (record rname { rdepends = rname.rdepends ++ name ∷ [] })) in
    if lists_name name rname.rdepends then entries else rest

abbrev pub merged_filename : FileName → FileName → FileName
merged_filename null_file f = f
merged_filename uninstallable f = uninstallable
merged_filename (file_name s) f = file_name s

-- What a package that is listed takes from another one with its checksum.
abbrev pub merged : Candidate → Candidate → Candidate
merged idb pkg = record idb {
  repos = bit_or idb.repos pkg.repos;
  filename = merged_filename idb.filename pkg.filename;
  ipkg = idb.ipkg || pkg.ipkg;
}

abbrev pub with_pkg : List NameEntry → ℕ → ℕ → List NameEntry
with_pkg entries name pkg =
    let e = entry_at entries name in set entries name (record e { pkgs = e.pkgs ++ pkg ∷ [] })

-- What follows the look-up of the checksum in apk_db_pkg_add.
abbrev pub add_found : Store → Checksum → Candidate → Option Listed → Store × ℕ
add_found st csum pkg none =
    let id = length st.candidates in
    (
      record {
        packages = insert listed_ops st.packages (record { csum = csum; pkg = id });
        candidates = st.candidates ++ pkg ∷ [];
        entries = pkg_rdepends pkg.name pkg.depends (with_pkg st.entries pkg.name id);
      },
      id,
    )
add_found st csum pkg (some idb) = (
  record st {
    candidates = set st.candidates idb.pkg (merged (candidate_at st.candidates idb.pkg) pkg);
  },
  idb.pkg,
)

-- apk_db_pkg_add, with the index of the package that it returns
unfoldable pub pkg_add : Store → Checksum → Candidate → Store × ℕ
pkg_add st csum pkg = add_found st csum pkg (get listed_ops st.packages (csum_blob csum))

-- The database as the solver reads it.
abbrev pub to_db : Store → List Dependency → ℕ → ℕ → (Candidate → Bool) → Db
to_db st world local_repos bad_repos cached = record {
  candidate = λ pkg. candidate_at st.candidates pkg;
  entry = λ name. entry_at st.entries name;
  world = world;
  local_repos = local_repos;
  bad_repos = bad_repos;
  cached = cached;
}
