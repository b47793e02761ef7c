-- ===== src/Names/Tests.antt =====
-- The theorems on names, and on the hash table with names for its items, at concrete inputs.
use am_linux_terminal_robot.Common.{
  ℕ, ◌≡◌, ◌≢◌, refl, ap, length, zero, suc, List, get_or, some, [], ◌∷◌, Bytes, codes, arith,
}
use am_linux_terminal_robot.Blob.Scan.{hash}
use am_linux_terminal_robot.Blob.Splitting.{Lacks}
use am_linux_terminal_robot.Hash.{Hash, get, find, slot, get_hashed}
use am_linux_terminal_robot.Names.{Name, name_ops, NameTable, query_name, get_name}
use am_linux_terminal_robot.Names.Interning.{IsInterned, query_name-get_name, get_name-IsInterned}

abbrev empties : List (List Name)
empties = [] ∷ [] ∷ []

abbrev empty : NameTable
empty = record { names = record { buckets = empties; num_items = 0 }; name_id = 0 }

empty_bucket : (i : ℕ) → get_or empties i [] ≡ []
empty_bucket zero = refl
empty_bucket (suc zero) = refl
empty_bucket (suc (suc i)) = refl

empty_query : (b : Bytes) (n : Name) → query_name empty b ≢ some n
unfolding query_name get get_hashed find
empty_query b n e = ground (arith, empty_bucket (slot name_ops empty.names (hash b)), e)

abbrev busybox : Bytes
busybox = codes "busybox"

busybox-Lacks : Lacks 0 busybox
busybox-Lacks = ground arith

query_name-get_name_example :
    (query_name (get_name empty busybox).0 busybox ≡ some (get_name empty busybox).1)
    × ((b : Bytes) → busybox ≢ b → query_name (get_name empty busybox).0 b ≡ query_name empty b)
query_name-get_name_example = query_name-get_name empty busybox (omega arith) busybox-Lacks

empty-IsInterned : IsInterned empty
empty-IsInterned = record {
  ids_below = λ b n e. absurd (empty_query b n e);
  ids_apart = λ b b' n n' e f i. absurd (empty_query b n e);
}

get_name-IsInterned_example : IsInterned (get_name empty busybox).0
get_name-IsInterned_example =
    get_name-IsInterned empty busybox (omega arith) busybox-Lacks (omega arith) empty-IsInterned

abbrev busybox_name : Name
busybox_name = record { name = codes "busybox"; id = 0 }

abbrev table : Hash Name
table = empty.names

apart : busybox ≢ codes "apk"
apart e = omega (arith, ap length e)
