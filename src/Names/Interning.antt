-- ===== src/Names/Interning.antt =====
-- About `apk_db_query_name` and `apk_db_get_name` of apk-tools/src/database.c.
use am_linux_terminal_robot.Common.{
  zero_of_eqb, ℕ, ◌+◌, ◌%◌, ◌^◌, ◌<◌, ◌≡◌, ◌≢◌, refl, sym, ap, ◌∙◌, true, false, none, some, [],
  ◌∷◌, ◌++◌, Bytes, ◌==◌, length, arith, inl, inr, Option-cases,
}
use am_linux_terminal_robot.Blob.Scan.{c_string, cstr, hash, last_byte}
use am_linux_terminal_robot.Blob.Splitting.{Lacks}
use am_linux_terminal_robot.Blob.Order.{compare_zero_iff}
use am_linux_terminal_robot.Hash.{get, insert_hashed, is_match}
use am_linux_terminal_robot.Hash.Interning
use am_linux_terminal_robot.Hash.Interning.{
  Keyed, query_key as query_key_of, query_new as new_of, query_other as other_of, grown-IsInterned,
}
use am_linux_terminal_robot.Names.{Name, name_key, name_ops, NameTable, query_name, get_name}

pub c_string-Lacks : (s t : Bytes) → Lacks 0 s → c_string (s ++ 0 ∷ t) ≡ s
unfolding c_string
c_string-Lacks [] t h = refl
c_string-Lacks (x ∷ s) t h = ground (arith, c_string-Lacks s t h.1)

last_byte-Lacks : (c : ℕ) (s : Bytes) → Lacks 0 (c ∷ s) → (last_byte c s == 0) ≡ false
last_byte-Lacks c [] h = ground arith
last_byte-Lacks c (d ∷ s) h = last_byte-Lacks d s h.1

-- The C string made of a blob with no null byte is the blob.
pub c_string-cstr : (s : Bytes) → Lacks 0 s → c_string (cstr s) ≡ s
unfolding cstr
c_string-cstr [] h = unfold c_string in refl
c_string-cstr (c ∷ s) h = rw (last_byte-Lacks c s h) (c_string-Lacks (c ∷ s) [] h)

pub match→key : (n : Name) (b : Bytes) → is_match name_ops n b ≡ true → b ≡ name_key n
unfolding is_match
match→key n b h = (compare_zero_iff b (name_key n)).0 (zero_of_eqb _ h)

key→match : (n : Name) (b : Bytes) → b ≡ name_key n → is_match name_ops n b ≡ true
unfolding is_match
key→match n b h = rw ((compare_zero_iff b (name_key n)).1 h) refl

abbrev make : Bytes → ℕ → Name
make b i = record { name = cstr b; id = i }

abbrev name_id : Name → ℕ
name_id n = n.id

-- Names match the texts that are their keys.
names_Keyed : Keyed name_ops make name_key name_id (Lacks 0)
names_Keyed = record {
  match→key = match→key;
  key→match = key→match;
  key_make = λ b i. c_string-cstr b;
  id_make = λ b i. refl;
}

abbrev new_name : NameTable → Bytes → Name
new_name t b = make b t.name_id

query_key : (t : NameTable) (b : Bytes) {n : Name} → query_name t b ≡ some n → b ≡ name_key n
unfolding query_name get
query_key t b h = query_key_of name_ops make name_key name_id names_Keyed t.names b h

pub found : (t : NameTable) (b : Bytes) {n : Name} → query_name t b ≡ some n → get_name t b ≡ (t, n)
unfolding query_name get_name get
found t b h = rw (h, get_name)

missing_name :
    (t : NameTable) (b : Bytes)
    → query_name t b ≡ none
    → get_name t b ≡ (
      record {
        names = insert_hashed name_ops t.names (new_name t b) (hash b);
        name_id = (t.name_id + 1) % 2 ^ 32;
      },
      new_name t b,
    )
unfolding query_name get_name get
missing_name t b h = rw (h, get_name)

-- The buckets of a table, of which there is one at least.
abbrev pub HasBuckets : NameTable → Type 0
HasBuckets t = 0 < length t.names.buckets

query_new :
    (t : NameTable) (b : Bytes)
    → HasBuckets t
    → Lacks 0 b
    → query_name t b ≡ none
    → query_name (get_name t b).0 b ≡ some (new_name t b)
unfolding query_name get
query_new t b h l e =
    rw (missing_name t b e)
      (new_of name_ops make name_key name_id names_Keyed t.names t.name_id b h l)

query_other :
    (t : NameTable) (b b' : Bytes)
    → HasBuckets t
    → Lacks 0 b
    → b ≢ b'
    → query_name t b ≡ none
    → query_name (get_name t b).0 b' ≡ query_name t b'
unfolding query_name get
query_other t b b' h l d e =
    rw (missing_name t b e)
      (other_of name_ops make name_key name_id names_Keyed t.names t.name_id b h l b' d)

-- A call of `apk_db_get_name` returns a name that is spelled as the blob, for a blob with no null
-- byte.
pub get_name-key : (t : NameTable) (b : Bytes) → Lacks 0 b → name_key (get_name t b).1 ≡ b
get_name-key t b l = elim (Option-cases (query_name t b)) [
  | inl e ↦ rw (missing_name t b e) (c_string-cstr b l)
  | inr (n, e) ↦ rw (found t b e) (sym (query_key t b e))
]

-- After a call of `apk_db_get_name` the table finds the returned name under the blob, and finds
-- under every other text what it found before, for a table with a bucket and a blob with no null
-- byte.
pub query_name-get_name :
    (t : NameTable) (b : Bytes)
    → HasBuckets t
    → Lacks 0 b
    → (query_name (get_name t b).0 b ≡ some (get_name t b).1)
      × ((b' : Bytes) → b ≢ b' → query_name (get_name t b).0 b' ≡ query_name t b')
query_name-get_name t b h l = elim (Option-cases (query_name t b)) [
  | inl e ↦ (
    query_new t b h l e ∙ ap some (sym (ap (λ r. r.1) (missing_name t b e))),
    λ b' d. query_other t b b' h l d e,
  )
  | inr (n, e) ↦ (rw (found t b e) e, λ b' d. rw (found t b e) refl)
]

-- The ids of the names are below the counter, and no two names share one.
pub record IsInterned (t : NameTable) : Type 0 where
  pub ids_below : (b : Bytes) (n : Name) → query_name t b ≡ some n → n.id < t.name_id
  pub ids_apart :
      (b b' : Bytes) (n n' : Name)
      → query_name t b ≡ some n
      → query_name t b' ≡ some n'
      → n.id ≡ n'.id
      → b ≡ b'

abbrev Interned : NameTable → Type 0
Interned t = Interning.IsInterned name_ops make name_key name_id t.names t.name_id

grown_Interned :
    (t : NameTable) (b : Bytes)
    → HasBuckets t
    → Lacks 0 b
    → t.name_id + 1 < 2 ^ 32
    → IsInterned t
    → query_name t b ≡ none
    → IsInterned (get_name t b).0
unfolding query_name get
grown_Interned t b h l u i e =
    rw (missing_name t b e, counted)
      (of_grown (
        grown-IsInterned name_ops make name_key name_id names_Keyed t.names t.name_id b h l
          (record { ids_below = i.ids_below; ids_apart = i.ids_apart })))
  where
    counted : (t.name_id + 1) % 2 ^ 32 ≡ t.name_id + 1
    counted = omega (arith, u)

    of_grown : {u : NameTable} → Interned u → IsInterned u
    of_grown a = record { ids_below = a.ids_below; ids_apart = a.ids_apart }

-- A call of `apk_db_get_name` keeps the ids below the counter and different for different names,
-- for a table with a bucket, a blob with no null byte, and a counter that has not reached the
-- largest number of 32 bits.
pub get_name-IsInterned :
    (t : NameTable) (b : Bytes)
    → HasBuckets t
    → Lacks 0 b
    → t.name_id + 1 < 2 ^ 32
    → IsInterned t
    → IsInterned (get_name t b).0
get_name-IsInterned t b h l u i = elim (Option-cases (query_name t b)) [
  | inl e ↦ grown_Interned t b h l u i e
  | inr (n, e) ↦ rw (found t b e) i
]
