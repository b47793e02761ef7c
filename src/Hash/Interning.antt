-- ===== src/Hash/Interning.antt =====
-- Interning in a hash table whose keys are byte strings: an item that is not found is made, with an
-- id from a counter, and inserted.
use mathlib.Core.Option.{some-injective}
use mathlib.Core.Path.{subst}
use am_linux_terminal_robot.Common.{
  ℕ, ◌+◌, ◌<◌, ◌≡◌, ◌≢◌, refl, sym, ap, ◌∙◌, Bool, true, false, some, Option, List, ◌∷◌, [], ◌⊎◌,
  bytes_eq, bytes_eq→eq, bytes_eq_refl, Bytes, length, arith, Bool-cases, inl, inr, ==_refl,
}
use am_linux_terminal_robot.Hash.Defs.{HashOps, Hash, get_hashed, insert_hashed, is_match, find}
use am_linux_terminal_robot.Hash.Lookup.{get_hashed-insert_hashed}

pub no_match : {b : Bool} → (b ≡ true → ⊥) → b ≡ false
no_match {b = true} h = absurd (h refl)
no_match {b = false} h = refl

bytes_cases : (a b : Bytes) → (a ≡ b) ⊎ (a ≢ b)
bytes_cases a b = elim (Bool-cases (bytes_eq a b)) [
  | inl e ↦ inl (bytes_eq→eq a b e)
  | inr e ↦ inr (λ p. cc (bytes_eq_refl b, ap (λ x. bytes_eq x b) p))
]

module _ {Item : Type 0} (ops : HashOps Bytes Item) (make : Bytes → ℕ → Item) (key : Item → Bytes)
    (id : Item → ℕ) where
  -- Items match the texts that are their keys; the item made of a valid text has it for its key and
  -- the number for its id.
  pub record Keyed (Valid : Bytes → Type 0) : Type 0 where
    pub match→key : (n : Item) (b : Bytes) → is_match ops n b ≡ true → b ≡ key n
    pub key→match : (n : Item) (b : Bytes) → b ≡ key n → is_match ops n b ≡ true
    pub key_make : (b : Bytes) (i : ℕ) → Valid b → key (make b i) ≡ b
    pub id_make : (b : Bytes) (i : ℕ) → id (make b i) ≡ i

  -- The lookup, and the table and the item after the call.
  abbrev pub query : Hash Item → Bytes → Option Item
  query h b = get_hashed ops h b (ops.hash_key b)

  abbrev pub grown : Hash Item → ℕ → Bytes → Hash Item
  grown h i b = insert_hashed ops h (make b i) (ops.hash_key b)

  -- The ids of the items are below the counter, and no two items share one.
  pub record IsInterned (h : Hash Item) (i : ℕ) : Type 0 where
    pub ids_below : (b : Bytes) (n : Item) → query h b ≡ some n → id n < i
    pub ids_apart :
        (b b' : Bytes) (n n' : Item)
        → query h b ≡ some n
        → query h b' ≡ some n'
        → id n ≡ id n'
        → b ≡ b'

  module _ {Valid : Bytes → Type 0} (k : Keyed Valid) where
    find_matches :
        (b : Bytes) (xs : List Item) {n : Item} → find ops b xs ≡ some n → is_match ops n b ≡ true
    unfolding find
    find_matches b [] h = cc
    find_matches b (x ∷ xs) {n} h = elim (Bool-cases (is_match ops x b)) [
      | inl e ↦ subst (λ y. is_match ops y b ≡ true) (some-injective x n (rw e at h)) e
      | inr e ↦ find_matches b xs (rw e at h)
    ]

    -- What is found under a text has that text for its key.
    pub query_key : (h : Hash Item) (b : Bytes) {n : Item} → query h b ≡ some n → b ≡ key n
    unfolding get_hashed
    query_key h b {n} e = k.match→key n b (find_matches b _ e)

    module _ (h : Hash Item) (i : ℕ) (b : Bytes) (buckets : 0 < length h.buckets)
        (v : Valid b) where
      pub query_new : query (grown h i b) b ≡ some (make b i)
      query_new =
          get_hashed-insert_hashed ops h (make b i) b (ops.hash_key b) (ops.hash_key b) buckets
          ∙ rw (==_refl _, k.key→match (make b i) b (sym (k.key_make b i v))) refl

      pub query_other : (b' : Bytes) → b ≢ b' → query (grown h i b) b' ≡ query h b'
      query_other b' d =
          get_hashed-insert_hashed ops h (make b i) b' (ops.hash_key b) (ops.hash_key b') buckets
          ∙ rw (no_match (λ m. d (sym (k.match→key (make b i) b' m ∙ k.key_make b i v))))
              (ground arith)

      -- Where the table has grown, an item that is found is the new one, or was there before.
      pub grown_cases :
          (b' : Bytes) (n : Item)
          → query (grown h i b) b' ≡ some n
          → ((b ≡ b') × (n ≡ make b i)) ⊎ (query h b' ≡ some n)
      grown_cases b' n q = elim (bytes_cases b b') [
        | inl same ↦
            inl (same, some-injective _ _ (sym q ∙ sym (ap (query (grown h i b)) same) ∙ query_new))
        | inr other ↦ inr (sym (query_other b' other) ∙ q)
      ]

      new_id : {n : Item} → n ≡ make b i → id n ≡ i
      new_id e = ap id e ∙ k.id_make b i

      grown_apart :
          IsInterned h i
          → (b1 b2 : Bytes) (n1 n2 : Item) → query (grown h i b) b1 ≡ some n1
          → query (grown h i b) b2 ≡ some n2
          → id n1 ≡ id n2
          → b1 ≡ b2
      grown_apart a b1 b2 n1 n2 q1 q2 same_id = elim (grown_cases b1 n1 q1) [
        | inl (same1, new1) ↦ elim (grown_cases b2 n2 q2) [
          | inl (same2, new2) ↦ sym same1 ∙ same2
          | inr old2 ↦ absurd (omega (arith, new_id new1, a.ids_below b2 n2 old2, same_id))
        ]
        | inr old1 ↦ elim (grown_cases b2 n2 q2) [
          | inl (same2, new2) ↦ absurd (omega (arith, new_id new2, a.ids_below b1 n1 old1, same_id))
          | inr old2 ↦ a.ids_apart b1 b2 n1 n2 old1 old2 same_id
        ]
      ]

      pub grown-IsInterned : IsInterned h i → IsInterned (grown h i b) (i + 1)
      grown-IsInterned a = record {
        ids_below = λ b' n q. elim (grown_cases b' n q) [
          | inl (same, new) ↦ omega (arith, new_id new)
          | inr old ↦ omega (arith, a.ids_below b' n old)
        ];
        ids_apart = grown_apart a;
      }
