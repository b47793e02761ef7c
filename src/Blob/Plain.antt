-- ===== src/Blob/Plain.antt =====
-- About the bytes of the texts that apk-tools/src/blob.c writes as base 64.
use am_linux_terminal_robot.Common.{
  ℕ, ◌+◌, ◌*◌, ◌/◌, ◌%◌, ◌<◌, ◌≡◌, ◌≢◌, refl, Bool, true, false, ◌&&◌, not, [], ◌∷◌, Bytes,
  if◌then◌else◌, ltb, ◌==◌, All, All-append, holds_below, all_below, arith,
}
use am_linux_terminal_robot.Blob.Push.{encode64, push_b64_chunk, b64_chunks}
use am_linux_terminal_robot.Blob.Hex.{IsByte}
use am_linux_terminal_robot.Blob.Splitting.{Lacks}

-- A byte that is no null byte, no dot and no newline.
abbrev pub IsPlain : ℕ → Type 0
IsPlain c = (c ≢ 0) × (c ≢ b'.') × (c ≢ b'\n')

abbrev plain_test : ℕ → Bool
plain_test c = not (c == 0) && not (c == b'.') && not (c == b'\n')

encode64-IsPlain : (i : ℕ) → i < 64 → IsPlain (encode64 i)
encode64-IsPlain i l =
    plain (holds_below (λ j. plain_test (encode64 j)) 64 i l (unfold all_below in refl))
  where
    plain : {c : ℕ} → plain_test c ≡ true → IsPlain c
    plain {c} e = (
      λ z. absurd (ground (arith, e, z)),
      λ z. absurd (ground (arith, e, z)),
      λ z. absurd (ground (arith, e, z)),
    )

padded-IsPlain : (b : Bool) {c : ℕ} → IsPlain c → IsPlain (if b then b'=' else c)
padded-IsPlain true h = (
  λ z. absurd (ground (arith, z)),
  λ z. absurd (ground (arith, z)),
  λ z. absurd (ground (arith, z)),
)
padded-IsPlain false h = h

chunk-IsPlain :
    (x y z len : ℕ) → IsByte x → IsByte y → IsByte z → All IsPlain (push_b64_chunk x y z len)
unfolding push_b64_chunk
chunk-IsPlain x y z len hx hy hz = (
  encode64-IsPlain (x / 4) (omega (arith, hx)),
  (
    encode64-IsPlain (x % 4 * 16 + y / 16) (omega (arith, hy)),
    (
      padded-IsPlain (ltb len 2) (encode64-IsPlain (y % 16 * 4 + z / 64) (omega (arith, hz))),
      (padded-IsPlain (ltb len 3) (encode64-IsPlain (z % 64) (omega arith)), tt),
    ),
  ),
)

pub b64_chunks-IsPlain :
    (s : Bytes) (next : ℕ) → All IsByte s → IsByte next → All IsPlain (b64_chunks s next)
unfolding b64_chunks
b64_chunks-IsPlain [] next h n = tt
b64_chunks-IsPlain (x ∷ []) next (hx, _) n = chunk-IsPlain x next 0 1 hx n (omega arith)
b64_chunks-IsPlain (x ∷ y ∷ []) next (hx, (hy, _)) n = chunk-IsPlain x y next 2 hx hy n
b64_chunks-IsPlain (x ∷ y ∷ z ∷ s) next (hx, (hy, (hz, h))) n =
    All-append IsPlain (push_b64_chunk x y z 4) (b64_chunks s next) (chunk-IsPlain x y z 4 hx hy hz)
      (b64_chunks-IsPlain s next h n)

unfoldable pub all_plain : Bytes → Bool
all_plain [] = true
all_plain (c ∷ s) = plain_test c && all_plain s

pub all_plain-IsPlain : (s : Bytes) → all_plain s ≡ true → All IsPlain s
unfolding all_plain
all_plain-IsPlain [] e = tt
all_plain-IsPlain (c ∷ s) e = (
  (
    λ z. absurd (ground (arith, e, z)),
    λ z. absurd (ground (arith, e, z)),
    λ z. absurd (ground (arith, e, z)),
  ),
  all_plain-IsPlain s (ground (arith, e)),
)

pub All-map : (P Q : ℕ → Type 0) → ((c : ℕ) → P c → Q c) → (s : Bytes) → All P s → All Q s
All-map P Q f [] h = tt
All-map P Q f (c ∷ s) (p, h) = (f c p, All-map P Q f s h)

pub no_dot : (s : Bytes) → All IsPlain s → Lacks b'.' s
no_dot = All-map IsPlain (λ c. c ≢ b'.') (λ c p. p.1)

pub no_null : (s : Bytes) → All IsPlain s → Lacks 0 s
no_null = All-map IsPlain (λ c. c ≢ 0) (λ c p. p.0)

pub no_newline : (s : Bytes) → All IsPlain s → Lacks b'\n' s
no_newline = All-map IsPlain (λ c. c ≢ b'\n') (λ c p. p.2)
