-- ===== src/Package/Filename/RoundTrip.antt =====
-- About `apk_pkg_parse_name` and `apk_pkg_format_plain` of apk-tools/src/package.c.
use mathlib.Core.Option.{some-injective}
use mathlib.Core.Path.{subst}
use am_linux_terminal_robot.Common.{
  ℕ, ◌+◌, ◌≡◌, ◌≢◌, refl, ap, true, false, Option, some, [], ◌∷◌, ◌++◌, Bytes, codes, leb, ◌==◌,
  ◌⊎◌, inl, inr, arith, Bool-cases, ==_iff, is_digit,
}
use am_linux_terminal_robot.Blob.Push.{Out}
use am_linux_terminal_robot.Blob.Buffer.{Pushes, push_blob-Pushes, Pushes-append}
use am_linux_terminal_robot.Blob.Splitting.{Lacks}
use am_linux_terminal_robot.Package.Filename.{
  Scan, broke, refused, going, scan_round, scan_name, scan_result, parse_name, format_plain,
}

-- `-rN`, the package's revision, or nothing.
abbrev pub IsRevision : Bytes → Type 0
IsRevision [] = Unit
IsRevision (c ∷ []) = ⊥
IsRevision (c ∷ d ∷ s) = (c ≡ b'-') × (d ≡ b'r') × Lacks b'-' s

-- A version: a digit, bytes that are no dash, and a revision.
pub record IsVersion (v : Bytes) : Type 0 where
  pub first : ℕ
  pub middle : Bytes
  pub revision : Bytes
  pub whole : v ≡ first ∷ (middle ++ revision)
  pub first_digit : is_digit first ≡ true
  pub middle_Lacks : Lacks b'-' middle
  pub revision_IsRevision : IsRevision revision

abbrev IsGoing : ℕ → Scan → Type 0
IsGoing n (broke l r) = ⊥
IsGoing n refused = ⊥
IsGoing n (going dash) = dash ≡ n

IsGoing-past :
    (c d n : ℕ) (s : Bytes) (r : Scan) → c ≢ b'-' → IsGoing n r → IsGoing n (scan_round c d s r)
IsGoing-past c d n s (broke l r) h g = g
IsGoing-past c d n s refused h g = g
IsGoing-past c d n s (going dash) h g = elim (Bool-cases (c == b'-')) [
  | inl e ↦ absurd (h ((==_iff c b'-').0 e))
  | inr e ↦ rw e g
]

scan-Lacks : (s : Bytes) → Lacks b'-' s → IsGoing 0 (scan_name s)
unfolding scan_name
scan-Lacks [] h = refl
scan-Lacks (c ∷ []) h = refl
scan-Lacks (c ∷ d ∷ s) h = IsGoing-past c d 0 s (scan_name (d ∷ s)) h.0 (scan-Lacks (d ∷ s) h.1)

dash_round :
    (d : ℕ) (s : Bytes) (r : Scan)
    → is_digit d ≡ false
    → IsGoing 0 r
    → IsGoing 1 (scan_round b'-' d s r)
dash_round d s (broke l r) h g = g
dash_round d s refused h g = g
dash_round d s (going dash) h g = rw (h, g) refl

break_round :
    (n d : ℕ) (s : Bytes) (r : Scan)
    → is_digit d ≡ true
    → IsGoing n r
    → scan_round b'-' d s r ≡ broke [] (d ∷ s)
break_round n d s (broke l r) h g = absurd g
break_round n d s refused h g = absurd g
break_round n d s (going dash) h g = rw h refl

scan-IsRevision : (s : Bytes) → IsRevision s → (IsGoing 0 (scan_name s)) ⊎ (IsGoing 1 (scan_name s))
scan-IsRevision [] h = inl (unfold scan_name in refl)
scan-IsRevision (c ∷ []) h = absurd h
scan-IsRevision (c ∷ d ∷ s) h =
    rw (h.0, h.1)
      (inr (
        unfold scan_name in
        dash_round b'r' s (scan_name (b'r' ∷ s)) refl (scan-Lacks (b'r' ∷ s) (omega arith, h.2))))

scan_cons :
    (c n : ℕ) (s : Bytes) → c ≢ b'-' → IsGoing n (scan_name s) → IsGoing n (scan_name (c ∷ s))
unfolding scan_name
scan_cons c n [] h g = g
scan_cons c n (d ∷ s) h g = IsGoing-past c d n s (scan_name (d ∷ s)) h g

scan-append :
    (n : ℕ) (l r : Bytes) → Lacks b'-' l → IsGoing n (scan_name r) → IsGoing n (scan_name (l ++ r))
scan-append n [] r h g = g
scan-append n (c ∷ l) r h g = scan_cons c n (l ++ r) h.0 (scan-append n l r h.1 g)

scan_breaks :
    (n d : ℕ) (s : Bytes)
    → is_digit d ≡ true
    → IsGoing n (scan_name (d ∷ s))
    → scan_name (b'-' ∷ d ∷ s) ≡ broke [] (d ∷ s)
unfolding scan_name
scan_breaks n d s h g = break_round n d s (scan_name (d ∷ s)) h g

scan_name_past :
    (c : ℕ) (s l r : Bytes) → scan_name s ≡ broke l r → scan_name (c ∷ s) ≡ broke (c ∷ l) r
unfolding scan_name
scan_name_past c [] l r h = cc
scan_name_past c (d ∷ s) l r h = rw h refl

scan_name_prefix :
    (name s r : Bytes) → scan_name s ≡ broke [] r → scan_name (name ++ s) ≡ broke name r
scan_name_prefix [] s r h = h
scan_name_prefix (c ∷ name) s r h =
    scan_name_past c (name ++ s) name r (scan_name_prefix name s r h)

digit_ne_dash : (d : ℕ) → is_digit d ≡ true → d ≢ b'-'
digit_ne_dash d h = ground arith

version_breaks : (v : Bytes) → IsVersion v → scan_name (b'-' ∷ v) ≡ broke [] v
version_breaks v i =
    rw i.whole
      (elim (scan-IsRevision i.revision i.revision_IsRevision) [ inl g ↦ go 0 g | inr g ↦ go 1 g ])
  where
    go :
        (n : ℕ)
        → IsGoing n (scan_name i.revision)
        → scan_name (b'-' ∷ i.first ∷ (i.middle ++ i.revision))
          ≡ broke [] (i.first ∷ (i.middle ++ i.revision))
    go n g = scan_breaks n i.first (i.middle ++ i.revision) i.first_digit (
        scan-append n (i.first ∷ i.middle) i.revision
          (digit_ne_dash i.first i.first_digit, i.middle_Lacks) g)

-- The name and the version of a package are read back from `name-version`, whatever dashes the name
-- has, if the version begins with a digit and has no dash but that of a revision `-rN`.
pub parse_name_back :
    (name v : Bytes) → IsVersion v → parse_name (some (name ++ b'-' ∷ v)) ≡ some (name, v)
unfolding parse_name
parse_name_back name v i = ap scan_result (scan_name_prefix name (b'-' ∷ v) v (version_breaks v i))

-- The name and the version that are found make up the text, and the version begins with a digit.
abbrev pub StartsWithDigit : Bytes → Type 0
StartsWithDigit [] = ⊥
StartsWithDigit (d ∷ s) = is_digit d ≡ true

abbrev Sound : Bytes → Scan → Type 0
Sound s (broke l r) = (s ≡ l ++ b'-' ∷ r) × StartsWithDigit r
Sound s refused = Unit
Sound s (going dash) = Unit

round-Sound :
    (c d : ℕ) (s : Bytes) (r : Scan) → Sound (d ∷ s) r → Sound (c ∷ d ∷ s) (scan_round c d s r)
round-Sound c d s (broke l r) h = (ap (λ t. c ∷ t) h.0, h.1)
round-Sound c d s refused h = tt
round-Sound c d s (going dash) h = elim (Bool-cases (c == b'-')) [
  | inl e ↦ elim (Bool-cases (is_digit d)) [
    | inl e' ↦ rw (e, e') (ap (λ t. t ∷ d ∷ s) ((==_iff c b'-').0 e), e')
    | inr e' ↦ elim (Bool-cases (leb 2 (dash + 1))) [
      | inl e'' ↦ rw (e, e', e'') tt
      | inr e'' ↦ rw (e, e', e'') tt
    ]
  ]
  | inr e ↦ rw e tt
]

scan-Sound : (s : Bytes) → Sound s (scan_name s)
unfolding scan_name
scan-Sound [] = tt
scan-Sound (c ∷ []) = tt
scan-Sound (c ∷ d ∷ s) = round-Sound c d s (scan_name (d ∷ s)) (scan-Sound (d ∷ s))

result-Sound :
    (s : Bytes) (r : Scan) {name v : Bytes}
    → Sound s r
    → scan_result r ≡ some (name, v)
    → (s ≡ name ++ b'-' ∷ v) × StartsWithDigit v
result-Sound s (broke l r) {name} {v} h e =
    subst (λ p. (s ≡ p.0 ++ b'-' ∷ p.1) × StartsWithDigit p.1) (some-injective _ _ e) h
result-Sound s refused h e = cc
result-Sound s (going dash) h e = cc

-- Whatever `apk_pkg_parse_name` finds is a name and a version that make up the text with a dash
-- between them, and the version begins with a digit.
pub parse_name_sound :
    (s : Bytes) {name v : Bytes}
    → parse_name (some s) ≡ some (name, v)
    → (s ≡ name ++ b'-' ∷ v) × StartsWithDigit v
unfolding parse_name
parse_name_sound s e = result-Sound s (scan_name s) (scan-Sound s) e

-- A package's file name is pushed as `name-version.apk` with a null byte, if there is room.
pub format_plain-Pushes :
    (name version : Bytes) (to : Option Out)
    → Pushes to
        (name ++ (codes "-" ++ (version ++ (codes ".apk" ++ 0 ∷ []))))
        (format_plain name version to)
unfolding format_plain
format_plain-Pushes name version to = Pushes-append _ _ _ name _ (push_blob-Pushes to name) (
    Pushes-append _ _ _ (codes "-") _ (push_blob-Pushes _ (codes "-")) (
      Pushes-append _ _ _ version _ (push_blob-Pushes _ version) (
        Pushes-append _ _ _ (codes ".apk") (0 ∷ []) (push_blob-Pushes _ (codes ".apk"))
          (push_blob-Pushes _ (0 ∷ [])))))
