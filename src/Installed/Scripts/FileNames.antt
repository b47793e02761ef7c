-- ===== src/Installed/Scripts/FileNames.antt =====
-- About the names of the entries in the archive of scripts of apk-tools/src/database.c.
use mathlib.Core.Path.{subst}
use am_linux_terminal_robot.Common.{
  ℕ, zero, suc, ◌+◌, ◌<◌, ◌≡◌, ◌≢◌, refl, ap, ◌∙◌, Option, none, some, List, [], ◌∷◌, ◌++◌, Bytes,
  codes, bytes_eq, ◌==◌, length, length-append, take, drop, get_or, All, All-take, concat,
  holds_below, all_below, arith, Bool-cases, inl, inr,
}
use am_linux_terminal_robot.Blob.Scan.{c_string, rsplit}
use am_linux_terminal_robot.Blob.Splitting.{Lacks}
use am_linux_terminal_robot.Blob.Push.{Out, buffer, push_blob, b64_chunks}
use am_linux_terminal_robot.Blob.Pieces.{push_all, push_all-concat, csum_pushes}
use am_linux_terminal_robot.Blob.Buffer.{Pushes, push_blob-Pushes}
use am_linux_terminal_robot.Blob.Plain.{IsPlain, all_plain, all_plain-IsPlain}
use am_linux_terminal_robot.Blob.Checksum.{Checksum, checksum_sha1, csum_blob}
use am_linux_terminal_robot.Names.{Name, name_key}
use am_linux_terminal_robot.Package.Dependency.{text_of}
use am_linux_terminal_robot.Package.Filename.{script_types, script_type, script_index}
use am_linux_terminal_robot.Installed.Scripts.{
  script_filename, script_name, with_action, with_package, with_type,
}

pub c_string_plain : (s : Bytes) → Lacks 0 (c_string s)
unfolding c_string
c_string_plain [] = tt
c_string_plain (c ∷ s) = elim (Bool-cases (c == 0)) [
  | inl e ↦ rw e tt
  | inr e ↦ rw e (λ z. absurd (ground (arith, e, z)), c_string_plain s)
]

pub text_of_plain : (s : Option Bytes) → Lacks 0 (text_of s)
text_of_plain none = tt
text_of_plain (some s) = c_string_plain s

pub type-IsPlain : (type : ℕ) → type < 7 → All IsPlain (get_or script_types type [])
type-IsPlain type l = all_plain-IsPlain (get_or script_types type []) (
    holds_below (λ i. all_plain (get_or script_types i [])) 7 type l
      (unfold all_below all_plain in refl))

-- A type is found by its name.
pub script_type-name : (type : ℕ) → type < 7 → script_type (get_or script_types type []) ≡ some type
unfolding script_type script_index bytes_eq c_string
script_type-name zero l = refl
script_type-name (suc zero) l = refl
script_type-name (suc (suc zero)) l = refl
script_type-name (suc (suc (suc zero))) l = refl
script_type-name (suc (suc (suc (suc zero)))) l = refl
script_type-name (suc (suc (suc (suc (suc zero))))) l = refl
script_type-name (suc (suc (suc (suc (suc (suc zero)))))) l = refl
script_type-name (suc (suc (suc (suc (suc (suc (suc n))))))) l = absurd (omega (arith, l))

rsplit-Lacks : (c : ℕ) (s : Bytes) → Lacks c s → rsplit c s ≡ none
unfolding rsplit
rsplit-Lacks c [] h = refl
rsplit-Lacks c (x ∷ s) (n, h) = rw (rsplit-Lacks c s h) (ground (arith, n))

rsplit-append : (c : ℕ) (l r : Bytes) → Lacks c r → rsplit c (l ++ c ∷ r) ≡ some (l, r)
unfolding rsplit
rsplit-append c [] r h = rw (rsplit-Lacks c r h) (ground arith)
rsplit-append c (x ∷ l) r h = rw (rsplit-append c l r h) refl

take-over : (p s : Bytes) (n m : ℕ) → m ≡ length p + n → take m (p ++ s) ≡ p ++ take n s
take-over [] s n m e = ap (λ i. take i s) (omega (arith, e))
take-over (x ∷ p) s n zero e = absurd (omega (arith, e))
take-over (x ∷ p) s n (suc m) e = ap (λ t. x ∷ t) (take-over p s n m (omega (arith, e)))

drop-over : (p s : Bytes) (n m : ℕ) → m ≡ length p + n → drop m (p ++ s) ≡ drop n s
drop-over [] s n m e = ap (λ i. drop i s) (omega (arith, e))
drop-over (x ∷ p) s n zero e = absurd (omega (arith, e))
drop-over (x ∷ p) s n (suc m) e = drop-over p s n m (omega (arith, e))

action_of :
    (old : Checksum) (stem action : Bytes) (n : ℕ)
    → length stem ≡ suc n
    → with_action old (some (stem, action))
      ≡ with_package old stem action (rsplit b'.' (take n stem))
action_of old [] action n e = absurd (omega (arith, e))
action_of old (c ∷ stem) action n e =
    ap (λ i. with_package old (c ∷ stem) action (rsplit b'.' (take i (c ∷ stem))))
      (omega (arith, e))

-- The two last dots of a name cut it into its parts.
pub script_name_parts :
    (old : Checksum) (owner action rest : Bytes) (x : ℕ)
    → Lacks b'.' action
    → Lacks b'.' (x ∷ rest)
    → script_name ((owner ++ b'.' ∷ x ∷ rest) ++ b'.' ∷ action) old
      ≡ with_type old (x ∷ rest) (script_type action)
unfolding script_name
script_name_parts old owner action rest x ha hr =
    ap (with_action old) (rsplit-append b'.' (owner ++ b'.' ∷ x ∷ rest) action ha)
    ∙ action_of old (owner ++ b'.' ∷ x ∷ rest) action (length owner + suc (length rest))
        (omega (arith, length-append owner (b'.' ∷ x ∷ rest)))
    ∙ ap (λ s. with_package old (owner ++ b'.' ∷ x ∷ rest) action (rsplit b'.' s))
        (take-over owner (b'.' ∷ x ∷ rest) (suc (length rest)) (length owner + suc (length rest))
          refl)
    ∙ ap (with_package old (owner ++ b'.' ∷ x ∷ rest) action) (
        rsplit-append b'.' owner (take (length rest) (x ∷ rest))
          (All-take (λ c. c ≢ b'.') (length rest) (x ∷ rest) hr))
    ∙ ap (λ s. with_type old s (script_type action))
        (drop-over owner (b'.' ∷ x ∷ rest) 1 (length owner + 1) refl)

abbrev pub type_name : ℕ → Bytes
type_name type = get_or script_types type []

abbrev pub pieces : Name → Option Bytes → Checksum → ℕ → List Bytes
pieces name version csum type =
    name_key name
    ∷ codes "-"
    ∷ text_of version
    ∷ codes "."
    ∷ codes "Q1"
    ∷ b64_chunks (csum_blob csum) checksum_sha1
    ∷ codes "."
    ∷ type_name type
    ∷ (0 ∷ [])
    ∷ []

pub script_filename_lem :
    (name : Name) (version : Option Bytes) (csum : Checksum) (type : ℕ)
    → csum.type ≡ checksum_sha1
    → script_filename name version csum type
      ≡ push_blob (buffer 256) (concat (pieces name version csum type))
unfolding script_filename push_all
script_filename_lem name version csum type h =
    rw
      (csum_pushes
        (push_blob
          (push_blob (push_blob (push_blob (buffer 256) (name_key name)) (codes "-"))
            (text_of version))
          (codes "."))
        csum h)
      (push_all-concat (buffer 256) (pieces name version csum type))

pub written_of : (text : Bytes) (o : Out) → push_blob (buffer 256) text ≡ some o → o.written ≡ text
written_of text o e = (subst (Pushes (buffer 256) text) e (push_blob-Pushes (buffer 256) text)).0
