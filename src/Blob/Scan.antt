-- ===== src/Blob/Scan.antt =====
-- apk-tools/src/blob.c, lines 17 to 149: searching, splitting, hashing and comparing blobs.
use am_linux_terminal_robot.Common.{
  ℕ, zero, suc, ◌+◌, ◌-◌, ◌*◌, ◌%◌, ◌^◌, Bool, ◌||◌, Option, none, some, [], ◌∷◌, ◌++◌, Bytes, ℤ,
  pos, negsuc, ltb, ◌==◌, if◌then◌else◌, length, drop, starts_with, eqb_ℤ,
}

-- What `strdup` copies of the bytes at a pointer: those before the first null byte.
unfoldable pub c_string : Bytes → Bytes
c_string [] = []
c_string (c ∷ s) = let rest = c_string s in if c == 0 then [] else c ∷ rest

abbrev pub last_byte : ℕ → Bytes → ℕ
last_byte c [] = c
last_byte c (d ∷ s) = last_byte d s

-- apk_blob_cstr: the allocated bytes, with their null byte.
unfoldable pub cstr : Bytes → Bytes
cstr [] = 0 ∷ []
cstr (c ∷ s) = if last_byte c s == 0 then c_string (c ∷ s) ++ 0 ∷ [] else (c ∷ s) ++ 0 ∷ []

-- strchr(set, c) != NULL; the null byte that ends `set` is found too.
unfoldable pub in_set : Bytes → ℕ → Bool
in_set [] c = c == 0
in_set (x ∷ set) c = x == c || in_set set c

abbrev pub cons_left : ℕ → Option (Bytes × Bytes) → Option (Bytes × Bytes)
cons_left c none = none
cons_left c (some (l, r)) = some (c ∷ l, r)

-- apk_blob_spn: `l` and `r` where the function returns 1.
unfoldable pub spn : Bytes → Bytes → Option (Bytes × Bytes)
spn accept [] = none
spn accept (c ∷ s) = if in_set accept c then cons_left c (spn accept s) else some ([], c ∷ s)

unfoldable pub cspn : Bytes → Bytes → Option (Bytes × Bytes)
cspn reject [] = none
cspn reject (c ∷ s) = if in_set reject c then some ([], c ∷ s) else cons_left c (cspn reject s)

-- apk_blob_rsplit, at the last `sep`.
unfoldable pub rsplit : ℕ → Bytes → Option (Bytes × Bytes)
rsplit sep [] = none
rsplit sep (c ∷ s) = elim (rsplit sep s) [
  | some (l, r) ↦ some (c ∷ l, r)
  | none ↦ if c == sep then some ([], s) else none
]

-- apk_blob_split, at the first place where the separator `c ∷ cs` stands. The code finds its first
-- byte by `memchr` and goes on behind it where the others differ.
unfoldable pub split : ℕ → Bytes → Bytes → Option (Bytes × Bytes)
split c cs [] = none
split c cs (x ∷ s) =
    if ltb (length (x ∷ s)) (length (c ∷ cs))
    then none
    else if starts_with (c ∷ cs) (x ∷ s)
    then some ([], drop (length (c ∷ cs)) (x ∷ s))
    else cons_left x (split c cs s)

-- A signed `char`, extended to 64 bits.
abbrev pub extended : ℕ → ℕ
extended c = if ltb c 128 then c else 2 ^ 64 - 256 + c

-- apk_blob_hash_seed, in an `unsigned long` of 64 bits.
unfoldable pub hash_seed : Bytes → ℕ → ℕ
hash_seed [] seed = seed
hash_seed (c ∷ s) seed = hash_seed s ((seed * 33 + extended c) % 2 ^ 64)

unfoldable pub hash : Bytes → ℕ
hash s = hash_seed s 5381

-- The sign of `memcmp` for two buffers of one length.
unfoldable pub memcmp : Bytes → Bytes → ℤ
memcmp (x ∷ xs) (y ∷ ys) = if ltb x y then negsuc 0 else if ltb y x then pos 1 else memcmp xs ys
memcmp [] ys = pos 0
memcmp (x ∷ xs) [] = pos 0

unfoldable pub compare : Bytes → Bytes → ℤ
compare a b =
    if length a == length b
    then memcmp a b
    else if ltb (length a) (length b)
    then negsuc 0
    else pos 1

-- A callback changes the state behind `ctx`, and stops the loop by a result that is not 0.
module _ {ℓ} {S : Type ℓ} (cb : S → Bytes → S × ℤ) (c : ℕ) (cs : Bytes) where
  -- `while (apk_blob_split(r, s, &l, &r))`; none: the fuel ran out
  unfoldable pub segment_loop : ℕ → S → Bytes → Option (S × ℤ)
  segment_loop zero s r = none
  segment_loop (suc fuel) s r = elim (split c cs r) [
    | some (l, r') ↦
        (let (s', rc) = cb s l in
          let rest = segment_loop fuel s' r' in if eqb_ℤ rc (pos 0) then rest else some (s', rc))
    | none ↦ if ltb 0 (length r) then some (cb s r) else some (s, pos 0)
  ]

  -- apk_blob_for_each_segment. Each round takes a byte at least.
  unfoldable pub for_each_segment : S → Bytes → Option (S × ℤ)
  for_each_segment s blob = segment_loop (suc (length blob)) s blob
