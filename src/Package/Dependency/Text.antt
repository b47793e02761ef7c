-- ===== src/Package/Dependency/Text.antt =====
-- About `apk_blob_push_dep` and `apk_dep_from_blob` of apk-tools/src/package.c, one after the
-- other.
use Prim.Native.Nat.{bit_and}
use am_linux_terminal_robot.Common.{
  ℕ, zero, suc, ◌<◌, ◌≡◌, ◌≢◌, refl, sym, ap, ◌∙◌, true, false, Option, none, some, [], ◌∷◌, ◌++◌,
  Bytes, codes, ◌==◌, arith, All,
}
use am_linux_terminal_robot.Blob.Scan.{cspn, spn, cstr, in_set}
use am_linux_terminal_robot.Blob.Push.{Out, push_blob}
use am_linux_terminal_robot.Blob.Buffer.{Pushes, push_blob-Pushes, Pushes-append}
use am_linux_terminal_robot.Version.Compare.{validate, op_string}
use am_linux_terminal_robot.Names.{NameTable, name_key}
use am_linux_terminal_robot.Names.{query_name}
use am_linux_terminal_robot.Names.Interning.{found, c_string-cstr}
use am_linux_terminal_robot.Blob.Splitting.{Lacks}
use am_linux_terminal_robot.Package.Dependency.{
  Dependency, ok, named, operators, dep_from_blob, push_dep, text_of, op_mask, with_operator,
}

-- A byte that may stand in a name: no operator, no null byte.
abbrev pub IsPlain : ℕ → Type 0
IsPlain c = in_set operators c ≡ false

cspn_plain : (s : Bytes) → All IsPlain s → cspn operators s ≡ none
unfolding cspn
cspn_plain [] h = refl
cspn_plain (c ∷ s) h = rw (h.0, cspn_plain s h.1) refl

cspn_at :
    (s : Bytes) (c : ℕ) (r : Bytes)
    → All IsPlain s
    → in_set operators c ≡ true
    → cspn operators (s ++ c ∷ r) ≡ some (s, c ∷ r)
unfolding cspn
cspn_at [] c r h e = rw e refl
cspn_at (x ∷ s) c r h e = rw (h.0, cspn_at s c r h.1 e) refl

-- The bytes of an operator, up to a byte that is none.
abbrev SplitsAt : Bytes → ℕ → Bytes → Type 0
SplitsAt op d w = spn operators (op ++ d ∷ w) ≡ some (op, d ∷ w)

spn_stop : (d : ℕ) (w : Bytes) → IsPlain d → spn operators (d ∷ w) ≡ some ([], d ∷ w)
unfolding spn
spn_stop d w h = rw h refl

op_string_splits :
    (m d : ℕ) (w : Bytes)
    → 0 < m
    → m < 6
    → IsPlain d
    → SplitsAt (op_string m) d w × (op_mask 0 (op_string m) ≡ m)
unfolding op_string op_mask spn in_set
op_string_splits zero d w l u h = absurd (omega arith)
op_string_splits (suc zero) d w l u h = (rw h refl, refl)
op_string_splits (suc (suc zero)) d w l u h = (rw h refl, refl)
op_string_splits (suc (suc (suc zero))) d w l u h = (rw h refl, refl)
op_string_splits (suc (suc (suc (suc zero)))) d w l u h = (rw h refl, refl)
op_string_splits (suc (suc (suc (suc (suc zero))))) d w l u h = (rw h refl, refl)
op_string_splits (suc (suc (suc (suc (suc (suc m)))))) d w l u h = absurd (omega arith)

-- An operator begins with a byte that a name may not have.
op_string_first :
    (m : ℕ)
    → 0 < m
    → m < 6
    → (c : ℕ) × (r : Bytes) × (op_string m ≡ c ∷ r) × (in_set operators c ≡ true)
unfolding op_string in_set
op_string_first zero l u = absurd (omega arith)
op_string_first (suc zero) l u = (b'=', [], refl, refl)
op_string_first (suc (suc zero)) l u = (b'<', [], refl, refl)
op_string_first (suc (suc (suc zero))) l u = (b'<', b'=' ∷ [], refl, refl)
op_string_first (suc (suc (suc (suc zero)))) l u = (b'>', [], refl, refl)
op_string_first (suc (suc (suc (suc (suc zero))))) l u = (b'>', b'=' ∷ [], refl, refl)
op_string_first (suc (suc (suc (suc (suc (suc m)))))) l u = absurd (omega arith)

-- A name that a text begins with: plain bytes, the first no exclamation mark.
abbrev pub IsNameText : Bytes → Type 0
IsNameText [] = ⊥
IsNameText (c ∷ s) = All IsPlain (c ∷ s) × (c ≢ b'!')

-- A version that stands behind an operator.
abbrev pub IsVersionText : Bytes → Type 0
IsVersionText [] = ⊥
IsVersionText (d ∷ w) = IsPlain d × (validate (d ∷ w) ≡ true)

unbanged :
    (t : NameTable) (b s : Bytes)
    → IsNameText b
    → dep_from_blob t (b ++ s) ≡ with_operator t 7 (b ++ s) (cspn operators (b ++ s))
unfolding dep_from_blob
unbanged t [] s h = absurd h
unbanged t (c ∷ b) s h = ground (arith, h.1)

valid_mask : (m : ℕ) → 0 < m → m < 6 → (bit_and m 6 == 6) ≡ false
valid_mask zero l u = absurd (omega arith)
valid_mask (suc zero) l u = refl
valid_mask (suc (suc zero)) l u = refl
valid_mask (suc (suc (suc zero))) l u = refl
valid_mask (suc (suc (suc (suc zero)))) l u = refl
valid_mask (suc (suc (suc (suc (suc zero))))) l u = refl
valid_mask (suc (suc (suc (suc (suc (suc m)))))) l u = absurd (omega arith)

parse_versioned :
    (t : NameTable) (b ver : Bytes) (m : ℕ)
    → IsNameText b
    → IsVersionText ver
    → 0 < m
    → m < 6
    → dep_from_blob t (b ++ (op_string m ++ ver)) ≡ named t b (some (cstr ver)) m
parse_versioned t b [] m h v l u = absurd v
parse_versioned t [] (d ∷ w) m h v l u = absurd h
parse_versioned t (c ∷ b) (d ∷ w) m h v l u =
    let (x, r, e, i) = op_string_first m l u in
    unbanged t (c ∷ b) (op_string m ++ d ∷ w) h
    ∙ ap (λ o. with_operator t 7 ((c ∷ b) ++ (op_string m ++ d ∷ w)) o)
        (ap (λ s. cspn operators ((c ∷ b) ++ (s ++ d ∷ w))) e
          ∙ cspn_at (c ∷ b) x (r ++ d ∷ w) h.0 i
          ∙ ap (λ s. some (c ∷ b, s ++ d ∷ w)) (sym e))
    ∙ rw
        (
          (op_string_splits m d w l u v.0).0,
          (op_string_splits m d w l u v.0).1,
          valid_mask m l u,
          v.1,
        )
        refl

no_bang : (c : ℕ) → c ≢ b'!' → (c == b'!') ≡ false
no_bang c h = ground arith

parse_plain : (t : NameTable) (b : Bytes) → IsNameText b → dep_from_blob t b ≡ named t b none 7
unfolding dep_from_blob
parse_plain t [] h = absurd h
parse_plain t (c ∷ b) h = rw (no_bang c h.1, cspn_plain (c ∷ b) h.0) refl

parse_conflict :
    (t : NameTable) (b : Bytes) → IsNameText b → dep_from_blob t (b'!' ∷ b) ≡ named t b none 0
unfolding dep_from_blob
parse_conflict t [] h = absurd h
parse_conflict t (c ∷ b) h = rw (cspn_plain (c ∷ b) h.0) refl

push_conflict :
    (to : Option Out) (d : Dependency)
    → d.result_mask ≡ 0
    → push_dep to d ≡ push_blob (push_blob to (codes "!")) (name_key d.name)
unfolding push_dep
push_conflict to d h = rw h refl

push_require :
    (to : Option Out) (d : Dependency)
    → d.result_mask ≡ 7
    → push_dep to d ≡ push_blob to (name_key d.name)
unfolding push_dep
push_require to d h = rw h refl

push_versioned :
    (to : Option Out) (d : Dependency)
    → 0 < d.result_mask
    → d.result_mask < 6
    → push_dep to d
      ≡ push_blob
          (push_blob (push_blob to (name_key d.name)) (op_string d.result_mask))
          (text_of d.version)
unfolding push_dep
push_versioned to d l u = ground arith

-- A dependency that the parser can make: on a name, with no version; in conflict with a name; or
-- with one or two of the three relations, not less and greater both, and a version.
pub data IsDependency (d : Dependency) : Type 0 where
  requires : d.result_mask ≡ 7 → d.version ≡ none → IsDependency d
  conflicts : d.result_mask ≡ 0 → d.version ≡ none → IsDependency d
  compares :
      0 < d.result_mask
      → d.result_mask < 6
      → (ver : Bytes) → IsVersionText ver
      → Lacks 0 ver
      → d.version ≡ some (cstr ver)
      → IsDependency d

-- A push of `text` that gives a buffer, and a parse of it.
abbrev pub ReadsBack : NameTable → Dependency → Out → Out → Type 0
ReadsBack t d o o' =
    (text : Bytes) × (o'.written ≡ o.written ++ text) × (dep_from_blob t text ≡ ok t d)

written_of :
    (o o' : Out) (to : Option Out) (text : Bytes)
    → Pushes (some o) text to
    → to ≡ some o'
    → o'.written ≡ o.written ++ text
written_of o o' none text p e = cc
written_of o o' (some o1) text p e = cc

named_found :
    (t : NameTable) (d : Dependency)
    → query_name t (name_key d.name) ≡ some d.name
    → named t (name_key d.name) d.version d.result_mask ≡ ok t d
unfolding named
named_found t d h = rw (found t (name_key d.name) h) refl

named_as :
    (t : NameTable) (d : Dependency) (version : Option Bytes) (mask : ℕ)
    → query_name t (name_key d.name) ≡ some d.name
    → d.version ≡ version
    → d.result_mask ≡ mask
    → named t (name_key d.name) version mask ≡ ok t d
named_as t d version mask h v m = rw (← v, ← m) (named_found t d h)

-- A dependency on a name of the table is written, if the push has room, as a text that is parsed to
-- the same dependency, and the table of names stays as it was. The name is plain text, and the
-- dependency requires it, conflicts with it, or compares it with a valid version of plain text.
pub dep_from_blob-push_dep :
    (t : NameTable) (d : Dependency) (o : Out) {o' : Out}
    → IsNameText (name_key d.name)
    → query_name t (name_key d.name) ≡ some d.name
    → IsDependency d
    → push_dep (some o) d ≡ some o'
    → ReadsBack t d o o'
dep_from_blob-push_dep t d o {o'} n q (requires m v) e = (
  name_key d.name,
  written_of o o' _ _ (push_blob-Pushes (some o) (name_key d.name))
      (sym (push_require (some o) d m) ∙ e),
  parse_plain t (name_key d.name) n ∙ named_as t d none 7 q v m,
)
dep_from_blob-push_dep t d o {o'} n q (conflicts m v) e = (
  b'!' ∷ name_key d.name,
  written_of o o' _ _
      (Pushes-append (some o) _ _ (codes "!") (name_key d.name)
        (push_blob-Pushes (some o) (codes "!")) (push_blob-Pushes _ (name_key d.name)))
      (sym (push_conflict (some o) d m) ∙ e),
  parse_conflict t (name_key d.name) n ∙ named_as t d none 0 q v m,
)
dep_from_blob-push_dep t d o {o'} n q (compares l u ver i c v) e = (
  name_key d.name ++ (op_string d.result_mask ++ ver),
  written_of o o' _ _
      (Pushes-append (some o) _ _ (name_key d.name) (op_string d.result_mask ++ ver)
        (push_blob-Pushes (some o) (name_key d.name))
        (Pushes-append _ _ _ (op_string d.result_mask) ver
          (push_blob-Pushes _ (op_string d.result_mask)) (push_blob-Pushes _ ver)))
      (ap
          (λ s.
            push_blob (push_blob (push_blob (some o) (name_key d.name)) (op_string d.result_mask))
              s)
          (sym (ap text_of v ∙ c_string-cstr ver c))
        ∙ sym (push_versioned (some o) d l u)
        ∙ e),
  parse_versioned t (name_key d.name) ver d.result_mask n i l u
      ∙ named_as t d (some (cstr ver)) d.result_mask q v refl,
)
