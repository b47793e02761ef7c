-- ===== src/Package/Dependency.antt =====
-- apk-tools/src/package.c, lines 161 to 339: dependencies on package names, the text
-- `[!]name[<,<=,=,>=,>]version` of a dependency, and the list of them.
pub mod Text
pub mod Lists
pub mod Written
use Prim.Native.Nat.{bit_and, bit_or}
use am_linux_terminal_robot.Common.{
  ℕ, suc, ◌+◌, Bool, true, false, ◌&&◌, not, Option, none, some, List, [], ◌∷◌, ◌++◌, Bytes, codes,
  ◌==◌, if◌then◌else◌, length, ℤ, pos, neg, eqb_ℤ,
}
use am_linux_terminal_robot.Blob.Scan.{cspn, spn, cstr, c_string, for_each_segment, last_byte}
use am_linux_terminal_robot.Blob.Push.{Out, push_blob, buffer, pushed}
use am_linux_terminal_robot.Version.Compare.{validate, op_string}
use am_linux_terminal_robot.Names.{Name, NameTable, name_key, get_name}

-- struct apk_dependency; a null version is none.
pub record Dependency : Type 0 where
  pub name : Name
  pub result_mask : ℕ
  pub version : Option Bytes

abbrev pub depmask_require : ℕ
depmask_require = 7

abbrev pub depmask_conflict : ℕ
depmask_conflict = 0

-- Names are compared by their pointers, for which their ids stand.
abbrev pub same_name : Name → Name → Bool
same_name a b = a.id == b.id

-- apk_deps_add
unfoldable pub deps_add : List Dependency → Dependency → List Dependency
deps_add [] dep = dep ∷ []
deps_add (d ∷ deps) dep = if same_name d.name dep.name then dep ∷ deps else d ∷ deps_add deps dep

-- The entry at `i` is overwritten by the last one, and the array is cut by one.
unfoldable pub last_first : List Dependency → List Dependency
last_first [] = []
last_first (d ∷ []) = d ∷ []
last_first (d ∷ e ∷ deps) = elim (last_first (e ∷ deps)) [ [] ↦ d ∷ [] | l ∷ r ↦ l ∷ d ∷ r ]

-- apk_deps_del
unfoldable pub deps_del : List Dependency → Name → List Dependency
deps_del [] name = []
deps_del (d ∷ deps) name = if same_name d.name name then last_first deps else d ∷ deps_del deps name

pub data ParseError : Type 0 where
  einval : ParseError

-- What a parse gives: the table of names, which may have grown, and a dependency.
pub data Parsed : Type 0 where
  ok : NameTable → Dependency → Parsed
  err : NameTable → ParseError → Parsed

-- The loop over the operator's bytes.
unfoldable pub op_mask : ℕ → Bytes → ℕ
op_mask mask [] = mask
op_mask mask (c ∷ s) =
    op_mask
      (if c == b'<'
        then bit_or mask 2
        else if c == b'>'
        then bit_or mask 4
        else if c == b'='
        then bit_or mask 1
        else mask)
      s

abbrev pub operators : Bytes
operators = codes "<>="

unfoldable pub named : NameTable → Bytes → Option Bytes → ℕ → Parsed
named t name version mask =
    let (t', n) = get_name t name in
    ok t' (record { name = n; result_mask = mask; version = version })

-- Behind the name: the operator and the version.
abbrev pub versioned : NameTable → Bytes → Option (Bytes × Bytes) → Parsed
versioned t name none = err t einval
versioned t name (some (op, ver)) =
    if bit_and (op_mask 0 op) 6 == 6
    then err t einval
    else if not (validate ver)
    then err t einval
    else named t name (some (cstr ver)) (op_mask 0 op)

abbrev pub with_operator : NameTable → ℕ → Bytes → Option (Bytes × Bytes) → Parsed
with_operator t mask blob none = named t blob none mask
with_operator t mask blob (some (bname, bop)) =
    if mask == 0 then err t einval else versioned t bname (spn operators bop)

-- apk_dep_from_blob
unfoldable pub dep_from_blob : NameTable → Bytes → Parsed
dep_from_blob t [] = with_operator t depmask_require [] (cspn operators [])
dep_from_blob t (c ∷ s) =
    if c == b'!'
    then with_operator t depmask_conflict s (cspn operators s)
    else with_operator t depmask_require (c ∷ s) (cspn operators (c ∷ s))

-- The table of names and the array that struct parse_depend_ctx points to.
pub record ParseContext : Type 0 where
  pub names : NameTable
  pub depends : List Dependency

abbrev add_parsed : List Dependency → Parsed → ParseContext × ℤ
add_parsed deps (ok t dep) = (record { names = t; depends = deps ++ dep ∷ [] }, pos 0)
add_parsed deps (err t e) = (record { names = t; depends = deps }, neg 1)

unfoldable pub parse_depend : ParseContext → Bytes → ParseContext × ℤ
parse_depend ctx [] = (ctx, pos 0)
parse_depend ctx (c ∷ s) = add_parsed ctx.depends (dep_from_blob ctx.names (c ∷ s))

abbrev drop_last : ℕ → Bytes → Bytes
drop_last c [] = []
drop_last c (d ∷ s) = c ∷ drop_last d s

-- `if (blob.len > 0 && blob.ptr[blob.len-1] == '\n') blob.len--`
unfoldable pub drop_newline : Bytes → Bytes
drop_newline [] = []
drop_newline (c ∷ s) = if last_byte c s == b'\n' then drop_last c s else c ∷ s

-- apk_deps_parse: the context behind it; the callback's result is dropped.
unfoldable pub deps_parse : ParseContext → Bytes → Option (ParseContext × ℤ)
deps_parse ctx blob = for_each_segment parse_depend b' ' [] ctx (drop_newline blob)

-- The bytes of a C string; a null pointer has none.
abbrev pub text_of : Option Bytes → Bytes
text_of none = []
text_of (some s) = c_string s

-- apk_blob_push_dep
unfoldable pub push_dep : Option Out → Dependency → Option Out
push_dep to dep =
    let to1 = if dep.result_mask == depmask_conflict then push_blob to (codes "!") else to in
    let to2 = push_blob to1 (name_key dep.name) in
    if not (dep.result_mask == depmask_conflict) && not (dep.result_mask == depmask_require)
    then push_blob (push_blob to2 (op_string dep.result_mask)) (text_of dep.version)
    else to2

-- `os->write` returns the number of bytes that it took, or an error. The result is -1 or the sum.
module _ {S : Type 0} (write : S → Bytes → S × ℤ) where
  abbrev pub write_pushed : S → Option Bytes → S × Bool
  write_pushed os none = (os, false)
  write_pushed os (some blob) = let (os', r) = write os blob in (os', eqb_ℤ r (pos (length blob)))

  abbrev pub pushed_length : Option Bytes → ℕ
  pushed_length none = 0
  pushed_length (some blob) = length blob

  -- One entry's text, pushed into `tmp`, behind a space but for the first.
  abbrev pub entry_text : Bool → Dependency → Option Bytes
  entry_text first dep =
      pushed 256 (push_dep (if first then buffer 256 else push_blob (buffer 256) (codes " ")) dep)

  unfoldable pub write_loop : List Dependency → Bool → ℕ → S → S × ℤ
  write_loop [] first n os = (os, pos n)
  write_loop (dep ∷ deps) first n os =
      let blob = entry_text first dep in
      let rest = write_loop deps false (n + pushed_length blob) (write_pushed os blob).0 in
      if (write_pushed os blob).1 then rest else ((write_pushed os blob).0, neg 1)

  -- apk_deps_write
  unfoldable pub deps_write : List Dependency → S → S × ℤ
  deps_write deps os = write_loop deps true 0 os
