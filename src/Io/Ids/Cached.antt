-- ===== src/Io/Ids/Cached.antt =====
-- About one cache of ids of apk-tools/src/io.c while a file of users or groups stays as it is.
use am_linux_terminal_robot.Common.{
  zero_of_eqb, ℕ, zero, suc, ◌%◌, ◌^◌, ◌<◌, ◌≤◌, ◌≡◌, refl, sym, ap, ◌∙◌, ◌⊎◌, inl, inr, Option,
  none, some, List, [], ◌∷◌, ◌++◌, Bytes, ◌==◌, ==_iff, if◌then◌else◌, length, length-append,
  get_or, set, arith, Bool-cases, Option-cases,
}
use am_linux_terminal_robot.Blob.Scan.{hash}
use am_linux_terminal_robot.Blob.Checksums.{take_all}
use am_linux_terminal_robot.Blob.Order.{compare_zero_iff}
use am_linux_terminal_robot.Hash.{is_match, insert_hashed, length-set, get_or-set}
use am_linux_terminal_robot.Hash.Interning.{
  Keyed, IsInterned, query, grown-IsInterned, grown_cases, query_new,
}
use am_linux_terminal_robot.Io.Ids.{
  CacheItem, Fields, Cache, cache_item_get_key, id_hash_ops, new_item, found_or_new,
  resolve_cache_item, scan_file, no_fields, refreshed,
}

-- The length of a name of an item is an unsigned short.
abbrev pub IsShort : Bytes → Type 0
IsShort b = length b < 2 ^ 16

abbrev place : CacheItem → ℕ
place ci = ci.place

short : (b : Bytes) → IsShort b → length b % 2 ^ 16 ≡ length b
short b s = omega (arith, s)

items_Keyed : Keyed id_hash_ops new_item cache_item_get_key place IsShort
unfolding is_match
items_Keyed = record {
  match→key = λ ci b e. (compare_zero_iff b (cache_item_get_key ci)).0 (zero_of_eqb _ e);
  key→match = λ ci b e. rw ((compare_zero_iff b (cache_item_get_key ci)).1 e) refl;
  key_make = λ b i s. rw (short b s) (take_all (length b) b refl);
  id_make = λ b i. refl;
}

abbrev pub lookup : Cache → Bytes → Option CacheItem
lookup c b = query id_hash_ops new_item cache_item_get_key place c.items b

abbrev pub fields_of : Cache → CacheItem → Fields
fields_of c ci = get_or c.fields ci.place no_fields

-- The items of a cache stand apart, none is newer than the cache, and those that are as new have
-- the id that the file gives to their name.
pub record IsCached (genid : ℕ) (file : Option (List (Bytes × ℕ))) (c : Cache) : Type 0 where
  pub buckets : 0 < length c.items.buckets
  pub interned : IsInterned id_hash_ops new_item cache_item_get_key place c.items (length c.fields)
  pub no_newer :
      (b : Bytes) (ci : CacheItem) → lookup c b ≡ some ci → (fields_of c ci).genid ≤ genid
  pub current :
      (b : Bytes) (ci : CacheItem)
      → lookup c b ≡ some ci
      → (fields_of c ci).genid ≡ genid
      → (fields_of c ci).id ≡ scan_file file b

get_or-append :
    (xs ys : List Fields) (i : ℕ)
    → i < length xs
    → get_or (xs ++ ys) i no_fields ≡ get_or xs i no_fields
get_or-append [] ys i l = absurd (omega (arith, l))
get_or-append (x ∷ xs) ys zero l = refl
get_or-append (x ∷ xs) ys (suc i) l = get_or-append xs ys i (omega (arith, l))

get_or-last : (xs : List Fields) (y : Fields) → get_or (xs ++ (y ∷ [])) (length xs) no_fields ≡ y
get_or-last [] y = refl
get_or-last (x ∷ xs) y = get_or-last xs y

module _ (genid : ℕ) (file : Option (List (Bytes × ℕ))) where
  -- A cache and an item of it for a name.
  pub record Holds (b : Bytes) (r : Cache × CacheItem) : Type 0 where
    pub cached : IsCached genid file r.0
    pub holds : lookup r.0 b ≡ some r.1

  module _ (c : Cache) (b : Bytes) (k : IsCached genid file c) (positive : 0 < genid)
      (s : IsShort b) where
    abbrev more : Cache
    more = (found_or_new c b none).0

    more_old : (ci : CacheItem) → ci.place < length c.fields → fields_of more ci ≡ fields_of c ci
    more_old ci l = get_or-append c.fields (no_fields ∷ []) ci.place l

    more_new : (ci : CacheItem) → ci ≡ new_item b (length c.fields) → fields_of more ci ≡ no_fields
    more_new ci e = ap (fields_of more) e ∙ get_or-last c.fields no_fields

    item_cases :
        (b' : Bytes) (ci : CacheItem)
        → lookup more b' ≡ some ci
        → (fields_of more ci ≡ no_fields)
          ⊎ ((lookup c b' ≡ some ci) × (fields_of more ci ≡ fields_of c ci))
    item_cases b' ci q =
        elim (grown_cases id_hash_ops new_item cache_item_get_key place items_Keyed c.items
          (length c.fields) b k.buckets s b' ci q) [
            | inl (_, e) ↦ inl (more_new ci e)
            | inr e ↦ inr (e, more_old ci (k.interned.ids_below b' ci e))
          ]

    more_buckets : 0 < length more.items.buckets
    unfolding insert_hashed
    more_buckets = rw (length-set c.items.buckets (hash b % length c.items.buckets) _) k.buckets

    more-IsCached : IsCached genid file more
    more-IsCached = record {
      buckets = more_buckets;
      interned = rw (length-append c.fields (no_fields ∷ [])) (
          grown-IsInterned id_hash_ops new_item cache_item_get_key place items_Keyed c.items
            (length c.fields) b k.buckets s k.interned);
      no_newer = λ b' ci q. elim (item_cases b' ci q) [
        | inl e ↦ omega (arith, ap (λ f. f.genid) e)
        | inr (o, e) ↦ omega (arith, ap (λ f. f.genid) e, k.no_newer b' ci o)
      ];
      current = λ b' ci q g. elim (item_cases b' ci q) [
        | inl e ↦ absurd (omega (arith, ap (λ f. f.genid) e, g, positive))
        | inr (o, e) ↦ ap (λ f. f.id) e ∙ k.current b' ci o (sym (ap (λ f. f.genid) e) ∙ g)
      ];
    }

    -- The item that is found or made for a short name is found under it, in a cache that keeps
    -- its invariant.
    pub resolve_cache_item-Holds : Holds b (resolve_cache_item c b)
    unfolding resolve_cache_item
    resolve_cache_item-Holds = elim (Option-cases (lookup c b)) [
      | inl e ↦ rw e (record {
        cached = more-IsCached;
        holds =
            query_new id_hash_ops new_item cache_item_get_key place items_Keyed c.items
              (length c.fields) b k.buckets s;
      })
      | inr (ci, e) ↦ rw e (record { cached = k; holds = e })
    ]

  module _ (c : Cache) (b : Bytes) (ci : CacheItem) (k : IsCached genid file c)
      (q : lookup c b ≡ some ci) where
    abbrev new_fields : Fields
    new_fields = record { genid = genid; id = scan_file file b }

    abbrev renewed : Cache
    renewed = record c { fields = set c.fields ci.place new_fields }

    renewed_cases :
        (b' : Bytes) (ci' : CacheItem)
        → lookup c b' ≡ some ci'
        → ((b ≡ b') × (fields_of renewed ci' ≡ new_fields))
          ⊎ (fields_of renewed ci' ≡ fields_of c ci')
    renewed_cases b' ci' q' = elim (Bool-cases (ci.place == ci'.place)) [
      | inl e ↦ inl (
        k.interned.ids_apart b b' ci ci' q q' ((==_iff ci.place ci'.place).0 e),
        at_place ∙ rw e refl,
      )
      | inr e ↦ inr (at_place ∙ rw e refl)
    ]
      where
        at_place :
            fields_of renewed ci' ≡ (if ci.place == ci'.place then new_fields else fields_of c ci')
        at_place =
            get_or-set c.fields ci.place ci'.place new_fields no_fields
              (k.interned.ids_below b ci q)

    renewed-IsCached : IsCached genid file renewed
    renewed-IsCached = record {
      buckets = k.buckets;
      interned = rw (length-set c.fields ci.place new_fields) k.interned;
      no_newer = λ b' ci' q'. elim (renewed_cases b' ci' q') [
        | inl (_, e) ↦ omega (arith, ap (λ f. f.genid) e)
        | inr e ↦ omega (arith, ap (λ f. f.genid) e, k.no_newer b' ci' q')
      ];
      current = λ b' ci' q' g. elim (renewed_cases b' ci' q') [
        | inl (same, e) ↦ ap (λ f. f.id) e ∙ ap (scan_file file) same
        | inr e ↦ ap (λ f. f.id) e ∙ k.current b' ci' q' (sym (ap (λ f. f.genid) e) ∙ g)
      ];
    }

  -- The item of a name, brought up to date, has the id that the file gives to the name.
  pub refreshed-IsCached :
      (b : Bytes) (r : Cache × CacheItem)
      → Holds b r
      → IsCached genid file (refreshed genid file b r).0
        × ((refreshed genid file b r).1 ≡ scan_file file b)
  refreshed-IsCached b (c, ci) h = elim (Bool-cases ((fields_of c ci).genid == genid)) [
    | inl e ↦
        rw e (h.cached, h.cached.current b ci h.holds ((==_iff (fields_of c ci).genid genid).0 e))
    | inr e ↦ rw e (renewed-IsCached c b ci h.cached h.holds, refl)
  ]
