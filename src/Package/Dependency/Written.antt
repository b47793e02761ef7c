-- ===== src/Package/Dependency/Written.antt =====
-- About `apk_deps_write` of apk-tools/src/package.c on a stream that takes all bytes.
use am_linux_terminal_robot.Common.{
  ℕ, ◌+◌, ◌<◌, ◌≡◌, refl, sym, ap, ◌∙◌, Bool, true, false, ◌&&◌, not, Option, none, some, List, [],
  ◌∷◌, ◌++◌, Bytes, codes, ◌==◌, if◌then◌else◌, ltb, length, length-append, All, arith,
  append_assoc, append-nil, Bool-cases, inl, inr, pos, eqb_ℤ,
}
use am_linux_terminal_robot.Blob.Push.{Out, buffer, pushed, push_blob}
use am_linux_terminal_robot.Blob.Pieces.{collect, push_blob-push_blob}
use am_linux_terminal_robot.Version.Compare.{op_string}
use am_linux_terminal_robot.Names.{name_key}
use am_linux_terminal_robot.Package.Dependency.{
  Dependency, depmask_conflict, depmask_require, text_of, push_dep, entry_text, write_loop,
  deps_write,
}

-- The text of a dependency: a mark for a conflict, the name, and a relation to a version if there is
-- one.
abbrev pub mark : Dependency → Bytes
mark d = if d.result_mask == depmask_conflict then codes "!" else []

abbrev pub relation : Dependency → Bytes
relation d =
    if not (d.result_mask == depmask_conflict) && not (d.result_mask == depmask_require)
    then op_string d.result_mask ++ text_of d.version
    else []

abbrev pub dep_text : Dependency → Bytes
dep_text d = (mark d ++ name_key d.name) ++ relation d

push_mark :
    (to : Option Out) (b : Bool) (s : Bytes)
    → push_blob (if b then push_blob to (codes "!") else to) s
      ≡ push_blob to ((if b then codes "!" else []) ++ s)
push_mark to true s = push_blob-push_blob to (codes "!") s
push_mark to false s = refl

push_relation :
    (to : Option Out) (b : Bool) (s op version : Bytes)
    → (if b then push_blob (push_blob (push_blob to s) op) version else push_blob to s)
      ≡ push_blob to (s ++ (if b then op ++ version else []))
push_relation to true s op version =
    push_blob-push_blob (push_blob to s) op version ∙ push_blob-push_blob to s (op ++ version)
push_relation to false s op version = ap (push_blob to) (sym (append-nil s))

-- The push of a dependency is that of its text.
pub push_dep-dep_text :
    (to : Option Out) (d : Dependency) → push_dep to d ≡ push_blob to (dep_text d)
unfolding push_dep
push_dep-dep_text to d = rw (push_mark to (d.result_mask == depmask_conflict) (name_key d.name)) (
    push_relation to
      (not (d.result_mask == depmask_conflict) && not (d.result_mask == depmask_require))
      (mark d ++ name_key d.name) (op_string d.result_mask) (text_of d.version))

-- A text that a buffer has room for.
abbrev pub fitting : ℕ → Bytes → Option Bytes
fitting room text = if ltb room (length text) then none else some text

pub pushed-fitting :
    (room : ℕ) (text : Bytes) → pushed room (push_blob (buffer room) text) ≡ fitting room text
unfolding pushed push_blob
pushed-fitting room text = elim (Bool-cases (ltb room (length text))) [
  | inl e ↦ rw e refl
  | inr e ↦ rw e (ground arith)
]

-- A text behind a space, but for the first one.
abbrev spaced : Bool → Bytes → Bytes
spaced true text = text
spaced false text = b' ' ∷ text

-- The texts of dependencies with spaces between them.
unfoldable pub deps_text : Bool → List Dependency → Bytes
deps_text first [] = []
deps_text first (d ∷ deps) = spaced first (dep_text d) ++ deps_text false deps

-- The text of a dependency fits into the buffer with a space.
abbrev pub IsWritable : Dependency → Type 0
IsWritable d = length (dep_text d) < 256

entry_text-spaced :
    (first : Bool) (d : Dependency)
    → IsWritable d
    → entry_text collect first d ≡ some (spaced first (dep_text d))
entry_text-spaced true d w =
    ap (pushed 256) (push_dep-dep_text (buffer 256) d)
    ∙ pushed-fitting 256 (dep_text d)
    ∙ fits (dep_text d) w
  where
    fits : (text : Bytes) → length text < 256 → fitting 256 text ≡ some text
    fits text w = ground (arith, w)
entry_text-spaced false d w =
    ap (pushed 256) (
      push_dep-dep_text (push_blob (buffer 256) (codes " ")) d
      ∙ push_blob-push_blob (buffer 256) (codes " ") (dep_text d))
    ∙ pushed-fitting 256 (b' ' ∷ dep_text d)
    ∙ fits (dep_text d) w
  where
    fits : (text : Bytes) → length text < 256 → fitting 256 (b' ' ∷ text) ≡ some (b' ' ∷ text)
    fits text w = ground (arith, w)

pub took : (n : ℕ) → eqb_ℤ (pos n) (pos n) ≡ true
took n = ground arith

write_loop-deps_text :
    (deps : List Dependency) (first : Bool) (n : ℕ) (os : Bytes)
    → All IsWritable deps
    → write_loop collect deps first n os
      ≡ (os ++ deps_text first deps, pos (n + length (deps_text first deps)))
unfolding write_loop deps_text
write_loop-deps_text [] first n os w = rw (append-nil os) (ap (λ m. (os, pos m)) (omega arith))
write_loop-deps_text (d ∷ deps) first n os w =
    let t = spaced first (dep_text d) in
    let u = deps_text false deps in
    let all : n + length t + length u ≡ n + length (t ++ u) = omega (arith, length-append t u) in
    rw (entry_text-spaced first d w.0, took (length t))
      (write_loop-deps_text deps false (n + length t) (os ++ t) w.1
        ∙ rw (append_assoc os t u, all) refl)

-- What apk_deps_write writes, and the number of its bytes, which it returns, for dependencies whose
-- texts fit into its buffer.
pub deps_write-deps_text :
    (deps : List Dependency) (os : Bytes)
    → All IsWritable deps
    → deps_write collect deps os ≡ (os ++ deps_text true deps, pos (length (deps_text true deps)))
unfolding deps_write
deps_write-deps_text deps os w =
    write_loop-deps_text deps true 0 os w
    ∙ ap (λ n. (os ++ deps_text true deps, pos n)) (omega arith)
