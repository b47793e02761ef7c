-- ===== src/Hash/Defs.antt =====
-- apk-tools/src/hash.c, lines 15 to 111, and the inline functions of apk_hash.h.
use am_linux_terminal_robot.Common.{
  ℕ, zero, suc, ◌+◌, ◌%◌, Bool, ◌&&◌, not, Option, none, some, List, [], ◌∷◌, ℤ, pos, eqb_ℤ,
  if◌then◌else◌, get_or, set, length,
}

-- struct apk_hash_ops, without the offset of the node and the destructor, which frees the item.
-- A null function pointer is none.
pub record HashOps (Key Item : Type 0) : Type 0 where
  pub get_key : Item → Key
  pub hash_key : Key → ℕ
  pub hash_item : Option (Item → ℕ)
  pub compare : Key → Key → ℤ
  pub compare_item : Option (Item → Key → ℤ)

-- struct apk_hash
pub record Hash (Item : Type 0) : Type 0 where
  pub buckets : List (List Item)
  pub num_items : ℕ

abbrev pub replicate_nil {ℓ} : {A : Type ℓ} → ℕ → List (List A)
replicate_nil zero = []
replicate_nil (suc n) = [] ∷ replicate_nil n

-- apk_hash_init, of one bucket or more
unfoldable pub init : (Item : Type 0) → ℕ → Hash Item
init Item num_buckets = record { buckets = replicate_nil num_buckets; num_items = 0 }

-- apk_hash_foreach over a chain, and over the buckets. The state is what `ctx` points to; a result
-- that is not 0 stops the loops only if `ctx` is not null.
module _ {Item S : Type 0} (e : Item → S → S × ℤ) (has_ctx : Bool) where
  unfoldable pub foreach_chain : List Item → S → S × ℤ
  foreach_chain [] s = (s, pos 0)
  foreach_chain (x ∷ xs) s =
      let rest = foreach_chain xs (e x s).0 in
      if not (eqb_ℤ (e x s).1 (pos 0)) && has_ctx then e x s else rest

  unfoldable pub foreach_buckets : List (List Item) → S → S × ℤ
  foreach_buckets [] s = (s, pos 0)
  foreach_buckets (b ∷ bs) s =
      let rest = foreach_buckets bs (foreach_chain b s).0 in
      if not (eqb_ℤ (foreach_chain b s).1 (pos 0)) then foreach_chain b s else rest

  unfoldable pub foreach : Hash Item → S → S × ℤ
  foreach h s = foreach_buckets h.buckets s

module _ {Key Item : Type 0} (ops : HashOps Key Item) where
  abbrev compare_by : Option (Item → Key → ℤ) → Item → Key → ℤ
  compare_by (some compare_item) x key = compare_item x key
  compare_by none x key = ops.compare key (ops.get_key x)

  -- The test of an item against a key, by `compare_item` if there is one.
  unfoldable pub is_match : Item → Key → Bool
  is_match x key = eqb_ℤ (compare_by ops.compare_item x key) (pos 0)

  unfoldable pub find : Key → List Item → Option Item
  find key [] = none
  find key (x ∷ xs) = if is_match x key then some x else find key xs

  -- The chain without the first item that matches.
  unfoldable pub remove : Key → List Item → List Item
  remove key [] = []
  remove key (x ∷ xs) = if is_match x key then xs else x ∷ remove key xs

  -- `hash %= h->buckets->num`, and the bucket there
  abbrev pub slot : Hash Item → ℕ → ℕ
  slot h hash = hash % length h.buckets

  abbrev pub bucket : Hash Item → ℕ → List Item
  bucket h hash = get_or h.buckets (slot h hash) []

  unfoldable pub get_hashed : Hash Item → Key → ℕ → Option Item
  get_hashed h key hash = find key (bucket h hash)

  unfoldable pub insert_hashed : Hash Item → Item → ℕ → Hash Item
  insert_hashed h x hash = record {
    buckets = set h.buckets (slot h hash) (x ∷ bucket h hash);
    num_items = h.num_items + 1;
  }

  unfoldable pub delete_hashed : Hash Item → Key → ℕ → Hash Item
  delete_hashed h key hash = record h {
    buckets = set h.buckets (slot h hash) (remove key (bucket h hash));
  }

  -- apk_hash_from_item
  abbrev pub from_item : Item → ℕ
  from_item x = elim ops.hash_item [ some f ↦ f x | none ↦ ops.hash_key (ops.get_key x) ]

  -- apk_hash_get, apk_hash_insert, apk_hash_delete
  unfoldable pub get : Hash Item → Key → Option Item
  get h key = get_hashed h key (ops.hash_key key)

  unfoldable pub insert : Hash Item → Item → Hash Item
  insert h x = insert_hashed h x (from_item x)

  unfoldable pub delete : Hash Item → Key → Hash Item
  delete h key = delete_hashed h key (ops.hash_key key)
