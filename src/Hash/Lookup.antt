-- ===== src/Hash/Lookup.antt =====
-- About the operations of apk-tools/src/hash.c one after the other.
use am_linux_terminal_robot.Common.{
  ℕ, zero, suc, ◌+◌, ◌<◌, ◌≡◌, refl, ap, Bool, true, false, ◌&&◌, some, List, [], ◌∷◌, ◌==◌,
  if◌then◌else◌, get_or, set, length, arith, Bool-cases, inl, inr, ==_iff, ==_refl,
}
use native.Mathlib.Nat.{mod-lt}
use am_linux_terminal_robot.Hash.Defs.{
  HashOps, Hash, is_match, find, remove, slot, bucket, get_hashed, insert_hashed, delete_hashed,
}

module _ {A : Type 0} where
  pub length-set : (xs : List A) (i : ℕ) (v : A) → length (set xs i v) ≡ length xs
  length-set [] i v = refl
  length-set (x ∷ xs) zero v = refl
  length-set (x ∷ xs) (suc i) v = ap suc (length-set xs i v)

  pub get_or-set :
      (xs : List A) (i j : ℕ) (v d : A)
      → i < length xs
      → get_or (set xs i v) j d ≡ (if i == j then v else get_or xs j d)
  get_or-set [] i j v d h = absurd (omega arith)
  get_or-set (x ∷ xs) zero zero v d h = refl
  get_or-set (x ∷ xs) zero (suc j) v d h = ground arith
  get_or-set (x ∷ xs) (suc i) zero v d h = ground arith
  get_or-set (x ∷ xs) (suc i) (suc j) v d h = ground (arith, get_or-set xs i j v d)

module _ {A : Type 0} where
  pub set_back : (xs : List A) (i : ℕ) (v d : A) → set (set xs i v) i (get_or xs i d) ≡ xs
  set_back [] i v d = refl
  set_back (x ∷ xs) zero v d = refl
  set_back (x ∷ xs) (suc i) v d = ap (λ t. x ∷ t) (set_back xs i v d)

module _ {Key Item : Type 0} (ops : HashOps Key Item) where
  abbrev pub same_slot : Hash Item → ℕ → ℕ → Bool
  same_slot h hash hash' = slot ops h hash == slot ops h hash'

  same_bucket :
      (h : Hash Item) (hash hash' : ℕ)
      → same_slot h hash hash' ≡ true
      → bucket ops h hash ≡ bucket ops h hash'
  same_bucket h hash hash' e =
      ap (λ i. get_or h.buckets i []) (((==_iff (slot ops h hash) (slot ops h hash')).0) e)

  find_inserted :
      (h : Hash Item) (x : Item) (key : Key) (hash hash' : ℕ)
      → find ops key (if same_slot h hash hash' then x ∷ bucket ops h hash else bucket ops h hash')
        ≡ (if same_slot h hash hash' && is_match ops x key
            then some x
            else find ops key (bucket ops h hash'))
  unfolding find
  find_inserted h x key hash hash' = elim (Bool-cases (same_slot h hash hash')) [
    | inl e ↦ rw (e, same_bucket h hash hash' e) refl
    | inr e ↦ rw e refl
  ]

  remove_head :
      (key : Key) (x : Item) (xs : List Item)
      → is_match ops x key ≡ true
      → remove ops key (x ∷ xs) ≡ xs
  unfolding remove
  remove_head key x xs m = rw m

  find-remove :
      (key key' : Key)
      → ((x : Item) → is_match ops x key ≡ true → is_match ops x key' ≡ false)
      → (xs : List Item) → find ops key' (remove ops key xs) ≡ find ops key' xs
  unfolding find remove
  find-remove key key' apart [] = refl
  find-remove key key' apart (x ∷ xs) = elim (Bool-cases (is_match ops x key)) [
    | inl e ↦ rw (e, apart x e) refl
    | inr e ↦ rw e (ground (arith, find-remove key key' apart xs))
  ]

  find_deleted :
      (h : Hash Item) (key key' : Key) (hash hash' : ℕ)
      → ((x : Item) → is_match ops x key ≡ true → is_match ops x key' ≡ false)
      → find ops key' (
          if same_slot h hash hash' then remove ops key (bucket ops h hash) else bucket ops h hash')
        ≡ find ops key' (bucket ops h hash')
  find_deleted h key key' hash hash' apart = elim (Bool-cases (same_slot h hash hash')) [
    | inl e ↦ rw (e, same_bucket h hash hash' e) (find-remove key key' apart (bucket ops h hash'))
    | inr e ↦ rw e refl
  ]

  -- After an insertion into a table with a bucket a lookup finds the new item first, if it goes to
  -- the same bucket and the item matches the key, and else what it found before.
  pub get_hashed-insert_hashed :
      (h : Hash Item) (x : Item) (key : Key) (hash hash' : ℕ)
      → 0 < length h.buckets
      → get_hashed ops (insert_hashed ops h x hash) key hash' ≡ (
          if same_slot h hash hash' && is_match ops x key
          then some x
          else get_hashed ops h key hash')
  unfolding get_hashed insert_hashed
  get_hashed-insert_hashed h x key hash hash' n =
      rw
        (
          length-set h.buckets (slot ops h hash) (x ∷ bucket ops h hash),
          get_or-set h.buckets (slot ops h hash) (slot ops h hash') (x ∷ bucket ops h hash) []
              (mod-lt hash n),
        )
        (find_inserted h x key hash hash')

  -- The deletion of a key from a table with a bucket changes no lookup of a key that no item
  -- matches together with it.
  pub get_hashed-delete_hashed :
      (h : Hash Item) (key key' : Key) (hash hash' : ℕ)
      → 0 < length h.buckets
      → ((x : Item) → is_match ops x key ≡ true → is_match ops x key' ≡ false)
      → get_hashed ops (delete_hashed ops h key hash) key' hash' ≡ get_hashed ops h key' hash'
  unfolding get_hashed delete_hashed
  get_hashed-delete_hashed h key key' hash hash' n apart =
      rw
        (
          length-set h.buckets (slot ops h hash) (remove ops key (bucket ops h hash)),
          get_or-set h.buckets (slot ops h hash) (slot ops h hash')
              (remove ops key (bucket ops h hash)) [] (mod-lt hash n),
        )
        (find_deleted h key key' hash hash' apart)

  -- An item that is inserted into a table with a bucket and then deleted by a key that it matches
  -- leaves the buckets as they were, and is still counted: a deletion does not lower `num_items`.
  pub delete_hashed-insert_hashed :
      (h : Hash Item) (x : Item) (key : Key) (hash : ℕ)
      → 0 < length h.buckets
      → is_match ops x key ≡ true
      → delete_hashed ops (insert_hashed ops h x hash) key hash
        ≡ record h { num_items = h.num_items + 1 }
  unfolding delete_hashed insert_hashed
  delete_hashed-insert_hashed h x key hash n m =
      rw
        (
          length-set h.buckets (slot ops h hash) (x ∷ bucket ops h hash),
          get_or-set h.buckets (slot ops h hash) (slot ops h hash) (x ∷ bucket ops h hash) []
              (mod-lt hash n),
          ==_refl (slot ops h hash),
          remove_head key x (bucket ops h hash) m,
          set_back h.buckets (slot ops h hash) (x ∷ bucket ops h hash) [],
        )
        refl
