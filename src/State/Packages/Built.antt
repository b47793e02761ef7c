-- ===== src/State/Packages/Built.antt =====
-- About the solver of apk-tools/src/state.c on a database that apk-tools/src/database.c has built.
use mathlib.Core.Path.{subst}
use am_linux_terminal_robot.Common.{
  ℕ, zero, suc, ◌<◌, ◌-◌, ◌^◌, some, ◌≡◌, sym, Bool, List, [], ◌∷◌, ◌++◌, length, arith,
}
use am_linux_terminal_robot.Blob.Checksum.{Checksum}
use am_linux_terminal_robot.Hash.{init}
use am_linux_terminal_robot.Package.Dependency.{Dependency}
use am_linux_terminal_robot.State.{Candidate, NameEntry, Flags, state_new, new_state}
use am_linux_terminal_robot.State.Names.{IsDb, empty_names-IsNames, length-empty_names}
use am_linux_terminal_robot.State.Lock.Deletion.{IsAny}
use am_linux_terminal_robot.State.Lock.Returns.{Returns}
use am_linux_terminal_robot.State.Applets.{cache_download_state}
use am_linux_terminal_robot.State.Applets.Solution.{lock_world-Returns}
use am_linux_terminal_robot.State.Packages.{
  Listed, Store, new_entry, entry_at, candidate_at, pkg_add, to_db,
}
use am_linux_terminal_robot.State.{empty_names}
use am_linux_terminal_robot.State.Names.{IsNames}
use am_linux_terminal_robot.State.Packages.Invariant.{
  All-mono, length_snoc, IsAt, IsEntry, IsStore, pkg_add-IsStore,
}

-- A database as it comes to be: a new one has a table with buckets, a name is added with no
-- packages, and a package of a name is added.
pub data Built : Store → Type 0 where
  start :
      (num_buckets : ℕ)
      → Built (record { packages = init Listed num_buckets; candidates = []; entries = [] })
  with_name : (st : Store) → Built st → Built (record st { entries = st.entries ++ new_entry ∷ [] })
  with_package :
      (st : Store) (csum : Checksum) (pkg : Candidate)
      → Built st
      → pkg.name < length st.entries
      → Built (pkg_add st csum pkg).0

entry_there :
    (P : NameEntry → Type 0) (entries : List NameEntry) (name : ℕ)
    → P new_entry
    → P (entry_at entries name)
    → P (entry_at (entries ++ new_entry ∷ []) name)
entry_there P [] zero h g = h
entry_there P [] (suc name) h g = h
entry_there P (e ∷ entries) zero h g = g
entry_there P (e ∷ entries) (suc name) h g = entry_there P entries name h g

Built-IsStore : (st : Store) → Built st → IsStore st
Built-IsStore _ (start n) = λ name. record { owned = tt; below = tt }
Built-IsStore _ (with_package st csum pkg b l) = pkg_add-IsStore st csum pkg l (Built-IsStore st b)
Built-IsStore _ (with_name st b) = (λ name.
    entry_there (IsEntry st.candidates (length (st.entries ++ new_entry ∷ [])) name) st.entries name
      (record { owned = tt; below = tt })
      (let e = Built-IsStore st b name in
        record {
          owned = e.owned;
          below =
              All-mono (λ n. n < length st.entries) (λ n. n < length (st.entries ++ new_entry ∷ []))
                (λ n l. omega (arith, l, length_snoc st.entries new_entry)) _ e.below;
        }))

-- The state of fewer than 2 ^ 28 - 6 names has its bytes counted in an `int`.
state_new_small : (n : ℕ) → n < 2 ^ 28 - 6 → state_new n ≡ some (new_state n)
unfolding state_new
state_new_small n u = ground (arith, u)

-- On a database of fewer than 2 ^ 28 - 6 names that is built by calls of apk_db_get_name and
-- apk_db_pkg_add, whatever world, repositories, cache and flags it has, the loop of cache_download
-- returns: it reads neither a null pointer nor a name out of bounds, and is not out of fuel.
pub Built-Returns :
    (st : Store) (world : List Dependency) (local_repos bad_repos : ℕ) (cached : Candidate → Bool)
    (flags : Flags)
    → Built st
    → length st.entries < 2 ^ 28 - 6
    → Returns
        (to_db st world local_repos bad_repos cached)
        flags
        (new_state (length st.entries))
        IsAny
        (cache_download_state
          (to_db st world local_repos bad_repos cached)
          flags
          (length st.entries))
unfolding cache_download_state new_state
Built-Returns st world local_repos bad_repos cached flags b u =
    let db = to_db st world local_repos bad_repos cached in
    let n = length st.entries in
    let s = Built-IsStore st b in
    let d : IsDb db n = record {
      owned = λ name.
          let e = s name in
          All-mono (IsAt st.candidates name) (λ p. (candidate_at st.candidates p).name ≡ name)
            (λ p a. a.named) _ e.owned;
      rdepends_below = λ name. let e = s name in e.below;
    } in
    rw (state_new_small n u) (
      lock_world-Returns db flags world (new_state n)
        (subst (IsDb db) (sym (length-empty_names db n)) d)
        (subst (λ m. IsNames db m (empty_names n)) (sym (length-empty_names db n))
          (empty_names-IsNames db n)))
