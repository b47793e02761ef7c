-- ===== src/Package/Info/Lines.antt =====
-- About `parse_index_line` of apk-tools/src/package.c, for each line that an entry has, and the lines
-- of an entry.
use mathlib.Core.Option.{some-injective}
use am_linux_terminal_robot.Common.{
  ℕ, ◌%◌, ◌*◌, ◌+◌, ◌<◌, ◌^◌, ◌≡◌, ◌≢◌, refl, sym, ap, ◌∙◌, Option, none, some, List, [], ◌∷◌, ◌++◌,
  Bytes, codes, ◌==◌, length, arith, append-nil, Bool-cases, Option-cases, inl, inr, Bool,
  if◌then◌else◌, concat,
}
use am_linux_terminal_robot.Blob.Scan.{cstr}
use am_linux_terminal_robot.Blob.Push.{b64_chunks, dx}
use am_linux_terminal_robot.Blob.Pull.{pull_uint, pull_uint_loop, digit_below}
use am_linux_terminal_robot.Blob.Checksum.{Checksum, checksum_sha1, csum_blob, pull_csum}
use am_linux_terminal_robot.Blob.Checksums.{IsData, take_all, pull_sha1_back}
use am_linux_terminal_robot.Blob.Splitting.{Lacks}
use am_linux_terminal_robot.Names.{Name, name_key, query_name}
use am_linux_terminal_robot.Names.Interning.{c_string-cstr, found}
use am_linux_terminal_robot.Package.Dependency.{text_of}
use am_linux_terminal_robot.Package.Info.{Package, InfoCtx, parse_index_line, add_info}
use am_linux_terminal_robot.Package.Info.Fields.{read_lines, entry_of}
use am_linux_terminal_robot.Blob.Segments.{joined}
use am_linux_terminal_robot.Package.Info.Entry.{has_arch, entry_bytes}

-- A field is missing, or a C string of one byte or more with no newline.
abbrev pub IsField : Option Bytes → Type 0
IsField none = Unit
IsField (some s) = (t : Bytes) × (s ≡ cstr t) × (0 < length t) × (Lacks 0 t × Lacks b'\n' t)

field_text : (s t : Bytes) → s ≡ cstr t → Lacks 0 t → text_of (some s) ≡ t
field_text s t e l = rw e (c_string-cstr t l)

pub field-Lacks : (v : Option Bytes) → IsField v → Lacks b'\n' (text_of v)
field-Lacks none h = tt
field-Lacks (some s) (t, e, p, (l, m)) = rw (field_text s t e l) m

-- Lines that leave a field as it is where it is missing.
pub text_line :
    (field : ℕ) (ctx : InfoCtx) (put : Option Bytes → InfoCtx) (v : Option Bytes)
    → put none ≡ ctx
    → ((c : ℕ) (s : Bytes)
        → parse_index_line ctx (field ∷ b':' ∷ c ∷ s) ≡ some (put (some (cstr (c ∷ s)))))
    → IsField v
    → parse_index_line ctx (field ∷ b':' ∷ text_of v) ≡ some (put v)
unfolding parse_index_line
text_line field ctx put none e h f = ap some (sym e)
text_line field ctx put (some s) e h ([], q, p, lm) = absurd (omega (arith, p))
text_line field ctx put (some s) e h (c ∷ t, q, p, (l, m)) =
    ap (λ u. parse_index_line ctx (field ∷ b':' ∷ u)) (field_text s (c ∷ t) q l)
    ∙ h c t
    ∙ ap (λ u. some (put (some u))) (sym q)

pub number_line :
    (field : ℕ) (ctx : InfoCtx) (put : ℕ → InfoCtx) (ds : Bytes) (n : ℕ)
    → put 0 ≡ ctx
    → ((c : ℕ) (s : Bytes)
        → pull_uint (some (c ∷ s)) 10 ≡ (n, some [])
        → parse_index_line ctx (field ∷ b':' ∷ c ∷ s) ≡ some (put n))
    → pull_uint (some ds) 10 ≡ (n, some [])
    → parse_index_line ctx (field ∷ b':' ∷ ds) ≡ some (put n)
unfolding parse_index_line pull_uint pull_uint_loop
number_line field ctx put [] n e h p = ap some (sym e ∙ ap put (ap (λ r. r.0) p))
number_line field ctx put (c ∷ s) n e h p = h c s p

pub name_line :
    (ctx : InfoCtx) (b : Bytes) (n : Name)
    → 0 < length b
    → query_name ctx.names b ≡ some n
    → parse_index_line ctx (b'P' ∷ b':' ∷ b)
      ≡ some (let p = ctx.pkg in record ctx { pkg = record p { name = some n } })
unfolding parse_index_line add_info
name_line ctx [] n l h = absurd (omega arith)
name_line ctx (c ∷ b) n l h = rw (found ctx.names (c ∷ b) h) refl

csum_back :
    (c old : Checksum)
    → c.type ≡ checksum_sha1
    → IsData c
    → length old.data_bytes ≡ 20
    → pull_csum (some (codes "Q1" ++ b64_chunks (csum_blob c) checksum_sha1)) old
      ≡ some (c, some [])
csum_back c old h d l =
    rw (h, take_all 20 c.data_bytes d.size)
      (ap (λ s. pull_csum (some s) old)
          (sym (append-nil (codes "Q1" ++ b64_chunks c.data_bytes checksum_sha1)))
        ∙ pull_sha1_back c.data_bytes [] old d.all_bytes d.size l
        ∙ ground (arith, h))

pub csum_line :
    (ctx : InfoCtx) (c : Checksum)
    → c.type ≡ checksum_sha1
    → IsData c
    → length ctx.pkg.csum.data_bytes ≡ 20
    → parse_index_line ctx (codes "C:Q1" ++ b64_chunks (csum_blob c) checksum_sha1)
      ≡ some (let p = ctx.pkg in record ctx { pkg = record p { csum = c } })
unfolding parse_index_line add_info
csum_line ctx c h d l = rw (csum_back c ctx.pkg.csum h d l) refl

digit_no_newline : (c d : ℕ) → digit_below 10 (dx c) ≡ some d → c ≢ b'\n'
unfolding dx
digit_no_newline c d h e = cc (rw e at h)

digits-Lacks : (s : Bytes) (v : ℕ) → (pull_uint_loop 10 v s).1 ≡ [] → Lacks b'\n' s
unfolding pull_uint_loop
digits-Lacks [] v h = tt
digits-Lacks (c ∷ s) v h = elim (Bool-cases (c == 0)) [
  | inl e ↦ absurd (cc (rw (e, pull_uint_loop) at h))
  | inr e ↦ elim (Option-cases (digit_below 10 (dx c))) [
    | inl q ↦ absurd (cc (rw (e, q, pull_uint_loop) at h))
    | inr (d, q) ↦ (
      digit_no_newline c d q,
      digits-Lacks s ((v * 10 + d) % 2 ^ 32) (rw (e, q, pull_uint_loop) at h),
    )
  ]
]

-- A text that is pulled as a number to its end has no newline.
pub size_Lacks : (s : Bytes) {n : ℕ} → pull_uint (some s) 10 ≡ (n, some []) → Lacks b'\n' s
unfolding pull_uint
size_Lacks s p = digits-Lacks s 0 (some-injective _ _ (ap (λ r. r.1) p))

pub labelled : (c : ℕ) (s : Bytes) → b'\n' < c → Lacks b'\n' s → Lacks b'\n' (c ∷ b':' ∷ s)
labelled c s l h = ((λ e. omega (arith, e, l)), ((λ e. omega (arith, e)), h))

pub named_entry :
    (c : InfoCtx) {m : Name} → c.pkg.name ≡ some m → entry_of (some c) ≡ some (c, some c.pkg)
named_entry c e = rw e refl

pub step :
    (ctx : InfoCtx) {ctx' : InfoCtx} (l : Bytes) (ls : List Bytes) {r : Option InfoCtx}
    → parse_index_line ctx l ≡ some ctx'
    → read_lines (some ctx') ls ≡ r
    → read_lines (some ctx) (l ∷ ls) ≡ r
unfolding read_lines
step ctx l ls e h = ap (λ o. read_lines o ls) e ∙ h

pub no_more : (ctx : InfoCtx) → read_lines (some ctx) [] ≡ some ctx
unfolding read_lines
no_more ctx = refl

-- What is read back for the architecture.
abbrev pub written_arch : Package → Bool → Option Bytes
written_arch info write_arch = if write_arch then info.arch else none

-- The lines of an entry behind the one of the architecture, and all of them.
abbrev pub lines_on : Package → Bytes → Bytes → List Bytes
lines_on info size installed =
    (codes "S:" ++ size)
    ∷ (codes "I:" ++ installed)
    ∷ (codes "T:" ++ text_of info.description)
    ∷ (codes "U:" ++ text_of info.url)
    ∷ (codes "L:" ++ text_of info.license)
    ∷ []

abbrev pub arch_lines : Package → Bool → Bytes → Bytes → List Bytes
arch_lines info with_arch size installed =
    if with_arch
    then (codes "A:" ++ text_of info.arch) ∷ lines_on info size installed
    else lines_on info size installed

abbrev pub lines : Package → Name → Bool → Bytes → Bytes → List Bytes
lines info n with_arch size installed =
    (codes "C:Q1" ++ b64_chunks (csum_blob info.csum) checksum_sha1)
    ∷ (codes "P:" ++ name_key n)
    ∷ (codes "V:" ++ text_of info.version)
    ∷ arch_lines info with_arch size installed

-- The bytes of an entry are its lines.
pub entry_bytes-joined :
    (info : Package) (n : Name) (write_arch : Bool) (size installed : Bytes)
    → entry_bytes info n write_arch size installed
      ≡ joined b'\n' (lines info n (has_arch info write_arch) size installed)
unfolding joined concat
entry_bytes-joined info n write_arch size installed = elim (Bool-cases (has_arch info write_arch)) [
  | inl e ↦ rw e refl
  | inr e ↦ rw e refl
]
