-- ===== src/Files/Lookup.antt =====
-- About the tables of apk-tools/src/database.c as maps from keys.
use am_linux_terminal_robot.Common.{
  ℕ, ◌<◌, ◌%◌, ◌^◌, ◌≡◌, refl, sym, ap, ◌∙◌, true, Option, List, none, some, take, Bytes, ℤ, pos,
  eqb_ℤ, if◌then◌else◌, length, arith, Bool-cases, inl, inr, ==_refl,
}
use am_linux_terminal_robot.Blob.Scan.{hash, hash_seed, compare}
use am_linux_terminal_robot.Blob.Checksums.{take_all}
use am_linux_terminal_robot.Blob.Order.{compare_zero_iff}
use am_linux_terminal_robot.Hash.{
  HashOps, Hash, is_match, get, insert, get_hashed, insert_hashed, from_item,
  get_hashed-insert_hashed,
}
use am_linux_terminal_robot.Files.{
  Dir, File, FileKey, FileTable, got_file, file_get, file_ops, file_hash_key, file_hash_item,
  file_compare_item, file_query, counted_name,
}

module _ {Key Item : Type 0} (ops : HashOps Key Item) where
  -- An item goes to the bucket of every key that it matches.
  abbrev pub IsCoherent : Item → Type 0
  IsCoherent x = (key : Key) → is_match ops x key ≡ true → from_item ops x ≡ ops.hash_key key

  -- An item whose hash agrees with that of each key it matches is found under each of these keys
  -- after its insertion into a table with a bucket, and under any other key what was found before.
  pub get-insert :
      (h : Hash Item) (x : Item) (key : Key)
      → 0 < length h.buckets
      → IsCoherent x
      → get ops (insert ops h x) key ≡ (if is_match ops x key then some x else get ops h key)
  unfolding get insert
  get-insert h x key l c =
      get_hashed-insert_hashed ops h x key (from_item ops x) (ops.hash_key key) l
      ∙ (elim (Bool-cases (is_match ops x key)) [
        | inl e ↦ rw (e, c key e, ==_refl (ops.hash_key key % length h.buckets)) refl
        | inr e ↦ rw e (ground arith)
      ])

zero_of_eqb : (a : ℤ) → eqb_ℤ a (pos 0) ≡ true → a ≡ pos 0
zero_of_eqb a h = ground arith

-- A file matches the key of its directory's name and its own.
pub match→names :
    (dbf : File) (key : FileKey)
    → is_match file_ops dbf key ≡ true
    → (key.filename ≡ dbf.name) × (key.dirname ≡ dbf.dir.name)
unfolding is_match file_compare_item
match→names dbf key h = elim (Bool-cases (eqb_ℤ (compare key.filename dbf.name) (pos 0))) [
  | inl e ↦ (
    (compare_zero_iff key.filename dbf.name).0 (zero_of_eqb _ e),
    (compare_zero_iff key.dirname dbf.dir.name).0 (zero_of_eqb _ (rw e at h)),
  )
  | inr e ↦ absurd (cc (e, rw e at h))
]

-- The hash of a file agrees with that of every key that it matches, if its directory's hash is that
-- of the directory's name.
pub file-IsCoherent : (dbf : File) → dbf.dir.hash ≡ hash dbf.dir.name → IsCoherent file_ops dbf
unfolding file_hash_key file_hash_item
file-IsCoherent dbf d key h = let m = match→names dbf key h in rw (d, m.0, m.1) refl

abbrev key_of : Dir → Bytes → FileKey
key_of dir name = record { dirname = dir.name; filename = name }

abbrev file_of : Dir → Bytes → File
file_of dir name = record { name = counted_name name; dir = dir }

-- A name of fewer than 2 ^ 16 bytes is counted in full.
counted_short : (name : Bytes) → length name < 2 ^ 16 → counted_name name ≡ name
counted_short name u = ap (λ n. take n name) short ∙ take_all (length name) name refl
  where
    short : length name % 2 ^ 16 ≡ length name
    short = omega (arith, u)

new_matches :
    (dir : Dir) (name : Bytes)
    → length name < 2 ^ 16
    → is_match file_ops (file_of dir name) (key_of dir name) ≡ true
unfolding is_match file_compare_item
new_matches dir name u =
    rw
      (
        counted_short name u,
        (compare_zero_iff name name).1 refl,
        (compare_zero_iff dir.name dir.name).1 refl,
      )
      refl

new_found :
    (h : Hash File) (dir : Dir) (name : Bytes) (hash : ℕ)
    → 0 < length h.buckets
    → length name < 2 ^ 16
    → get_hashed file_ops (insert_hashed file_ops h (file_of dir name) hash) (key_of dir name) hash
      ≡ some (file_of dir name)
new_found h dir name hash l u =
    get_hashed-insert_hashed file_ops h (file_of dir name) (key_of dir name) hash hash l
    ∙ rw (==_refl (hash % length h.buckets), new_matches dir name u) refl

got_found :
    (t : FileTable) (dir : Dir) (name : Bytes) (after : List File × List File) (hash : ℕ)
    (o : Option File)
    → 0 < length t.files.buckets
    → length name < 2 ^ 16
    → get_hashed file_ops t.files (key_of dir name) hash ≡ o
    → get_hashed file_ops (got_file t dir name after hash o).0.files (key_of dir name) hash
      ≡ some (got_file t dir name after hash o).1
got_found t dir name after hash none l u e = new_found t.files dir name hash l u
got_found t dir name after hash (some dbf) l u e = e

-- After apk_db_file_get of a name in a directory, a query of the directory's name and that name
-- finds what it returned, if the directory's hash is that of its name, the files have a bucket and
-- the name has fewer than 2 ^ 16 bytes.
pub file_query-file_get :
    (t : FileTable) (dir : Dir) (name : Bytes) (after : List File × List File)
    → dir.hash ≡ hash dir.name
    → 0 < length t.files.buckets
    → length name < 2 ^ 16
    → file_query (file_get t dir name after).0.files dir.name name
      ≡ some (file_get t dir name after).1
unfolding file_query file_get get file_hash_key
file_query-file_get t dir name after d l u =
    rw (sym d) (got_found t dir name after (hash_seed name dir.hash) _ l u refl)
