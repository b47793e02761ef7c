-- ===== src/Package/Info/Entry.antt =====
-- About `apk_pkg_write_index_entry` of apk-tools/src/package.c: the text of an entry.
use mathlib.Core.Path.{subst}
use am_linux_terminal_robot.Blob.Pieces.{collect, push_all, push_all-concat, csum_pushes}
use am_linux_terminal_robot.Common.{
  concat, ℕ, ◌<◌, ◌%◌, ◌^◌, ◌++◌, All, append_assoc, pos, neg, ◌≡◌, refl, sym, ap, ◌∙◌, Bool, ◌&&◌,
  true, false, ltb_ℤ, Option, some, List, [], ◌∷◌, Bytes, codes, if◌then◌else◌, ltb, length, arith,
  Bool-cases, inl, inr, append-nil, ℤ,
}
use am_linux_terminal_robot.Blob.Push.{Out, buffer, pushed, push_blob, push_uint, b64_chunks}
use am_linux_terminal_robot.Blob.Pull.{pull_uint}
use am_linux_terminal_robot.Blob.Numbers.{pull_uint-push_uint}
use am_linux_terminal_robot.Blob.Checksum.{checksum_sha1, csum_blob}
use am_linux_terminal_robot.Names.{Name, name_key}
use am_linux_terminal_robot.Package.Dependency.{Dependency, text_of}
use am_linux_terminal_robot.Package.Info.{Package}
use am_linux_terminal_robot.Package.Dependency.Written.{
  deps_text, IsWritable, deps_write-deps_text, fitting, pushed-fitting, took,
}
use am_linux_terminal_robot.Package.Info.Index.{
  index_text, is_some, write_depends, write_text, write_index_entry,
}

-- The fields of an entry in their order; `size` and `installed` are the texts of the sizes.
abbrev pub entry_pieces : Package → Name → Bool → Bytes → Bytes → List Bytes
entry_pieces info name with_arch size installed =
    codes "C:"
    ∷ codes "Q1"
    ∷ b64_chunks (csum_blob info.csum) checksum_sha1
    ∷ codes "\nP:"
    ∷ name_key name
    ∷ codes "\nV:"
    ∷ text_of info.version
    ∷ (if with_arch then codes "\nA:" ∷ text_of info.arch ∷ sizes_on else sizes_on)
  where
    sizes_on : List Bytes
    sizes_on =
        codes "\nS:"
        ∷ size
        ∷ codes "\nI:"
        ∷ installed
        ∷ codes "\nT:"
        ∷ text_of info.description
        ∷ codes "\nU:"
        ∷ text_of info.url
        ∷ codes "\nL:"
        ∷ text_of info.license
        ∷ codes "\n"
        ∷ []

abbrev pub has_arch : Package → Bool → Bool
has_arch info write_arch = write_arch && is_some info.arch

abbrev pub entry_bytes : Package → Name → Bool → Bytes → Bytes → Bytes
entry_bytes info name write_arch size installed =
    concat (entry_pieces info name (has_arch info write_arch) size installed)

abbrev PushesNumber : Bytes → ℕ → Type 0
PushesNumber ds n = (to : Option Out) → push_uint to n 10 ≡ push_blob to ds

text_pieces :
    (info : Package) (name : Name) (write_arch : Bool) (size installed : Bytes) (to : Option Out)
    → info.csum.type ≡ checksum_sha1
    → PushesNumber size (info.size % 2 ^ 32)
    → PushesNumber installed (info.installed_size % 2 ^ 32)
    → index_text info name write_arch to
      ≡ push_all to (entry_pieces info name (has_arch info write_arch) size installed)
unfolding index_text push_all
text_pieces info name write_arch size installed to h s i =
    elim (Bool-cases (has_arch info write_arch)) [
      | inl e ↦ rw (e, csum_pushes (push_blob to (codes "C:")) info.csum h, s _, i _) refl
      | inr e ↦ rw (e, csum_pushes (push_blob to (codes "C:")) info.csum h, s _, i _) refl
    ]

whole : (ds : Bytes) (n : ℕ) → n < 2 ^ 32 → PushesNumber ds n → PushesNumber ds (n % 2 ^ 32)
whole ds n u = subst (PushesNumber ds) same
  where
    same : n ≡ n % 2 ^ 32
    same = omega (arith, u)

-- The text of an entry, for a package with a SHA-1 checksum and sizes of 32 bits, is pushed as one
-- text: its fields in their order, with two texts that are pulled back as its sizes.
pub index_text-push_blob :
    (info : Package) (name : Name) (write_arch : Bool)
    → info.csum.type ≡ checksum_sha1
    → info.size < 2 ^ 32
    → info.installed_size < 2 ^ 32
    → (size : Bytes) × (installed : Bytes) × (pull_uint (some size) 10 ≡ (info.size, some []))
      × (pull_uint (some installed) 10 ≡ (info.installed_size, some []))
      × ((to : Option Out)
          → index_text info name write_arch to
            ≡ push_blob to (entry_bytes info name write_arch size installed))
index_text-push_blob info name write_arch h u v =
    let (size, p, q) = pull_uint-push_uint info.size 10 [] u (omega arith) (omega arith) tt in
    let (installed, r, s) =
      pull_uint-push_uint info.installed_size 10 [] v (omega arith) (omega arith) tt in
    (
      size,
      installed,
      ap (λ t. pull_uint (some t) 10) (sym (append-nil size)) ∙ q,
      ap (λ t. pull_uint (some t) 10) (sym (append-nil installed)) ∙ s,
      λ to.
          text_pieces info name write_arch size installed to h (whole size info.size u p)
            (whole installed info.installed_size v r)
          ∙ push_all-concat to (entry_pieces info name (has_arch info write_arch) size installed),
    )

-- The line of the dependencies, where there are any.
abbrev pub depends_line : List Dependency → Bytes
depends_line [] = []
depends_line (d ∷ deps) = codes "D:" ++ (deps_text true (d ∷ deps) ++ codes "\n")

not_negative : (n : ℕ) → ltb_ℤ (pos n) (pos 0) ≡ false
not_negative n = ground arith

write_depends-depends_line :
    (deps : List Dependency) (os : Bytes)
    → All IsWritable deps
    → write_depends collect deps os ≡ (os ++ depends_line deps, pos 0)
unfolding write_depends
write_depends-depends_line [] os w = ap (λ s. (s, pos 0)) (sym (append-nil os))
write_depends-depends_line (d ∷ deps) os w =
    let t = deps_text true (d ∷ deps) in
    rw (deps_write-deps_text (d ∷ deps) (os ++ codes "D:") w, not_negative (length t))
      (ap (λ s. (s, pos 0))
        (append_assoc (os ++ codes "D:") t (codes "\n")
          ∙ append_assoc os (codes "D:") (t ++ codes "\n")))

-- The stream and the result for a text of an entry and its dependencies.
abbrev pub entry_result : Bytes → Bytes → List Dependency → Bytes × ℤ
entry_result os text deps =
    if ltb 512 (length text) then (os, neg 1) else ((os ++ text) ++ depends_line deps, pos 0)

write_text-entry_result :
    (deps : List Dependency) (text os : Bytes)
    → All IsWritable deps
    → write_text collect deps (fitting 512 text) os ≡ entry_result os text deps
write_text-entry_result deps text os w = elim (Bool-cases (ltb 512 (length text))) [
  | inl e ↦ rw e refl
  | inr e ↦ rw (e, took (length text)) (write_depends-depends_line deps (os ++ text) w)
]

-- To a stream that takes all bytes, `apk_pkg_write_index_entry` writes the fields of an entry in
-- their order, with two texts that are pulled back as the sizes, then the line of the dependencies
-- with spaces between them, if there are any, and returns zero; where the text of the fields has
-- more than 512 bytes it writes nothing and returns -1. The package has a SHA-1 checksum and sizes
-- of 32 bits, and the text of each dependency has fewer than 256 bytes.
pub write_index_entry-entry_bytes :
    (info : Package) (name : Name) (write_arch : Bool)
    → info.csum.type ≡ checksum_sha1
    → info.size < 2 ^ 32
    → info.installed_size < 2 ^ 32
    → All IsWritable info.depends
    → (size : Bytes) × (installed : Bytes) × (pull_uint (some size) 10 ≡ (info.size, some []))
      × (pull_uint (some installed) 10 ≡ (info.installed_size, some []))
      × ((os : Bytes)
          → write_index_entry collect info name write_arch os
            ≡ entry_result os (entry_bytes info name write_arch size installed) info.depends)
unfolding write_index_entry
write_index_entry-entry_bytes info name write_arch h u v w =
    let (size, installed, q, s, t) = index_text-push_blob info name write_arch h u v in
    (
      size,
      installed,
      q,
      s,
      λ os.
          ap (λ o. write_text collect info.depends o os)
            (ap (pushed 512) (t (buffer 512))
              ∙ pushed-fitting 512 (entry_bytes info name write_arch size installed))
          ∙ write_text-entry_result info.depends (entry_bytes info name write_arch size installed)
              os w,
    )
