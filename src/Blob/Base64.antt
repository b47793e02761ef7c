-- ===== src/Blob/Base64.antt =====
-- About `apk_blob_push_base64` and `apk_blob_pull_base64` of apk-tools/src/blob.c, one after the
-- other, and about text that is no base 64.
use am_linux_terminal_robot.Common.{
  ℕ, suc, ◌+◌, ◌*◌, ◌/◌, ◌%◌, ◌≤◌, ◌<◌, ◌≡◌, refl, ◌∙◌, true, some, [], ◌∷◌, ◌++◌, Bytes, ◌==◌,
  length, All, arith, length-append, all_below, holds_below, drop, drop-append, ==_iff,
}
use am_linux_terminal_robot.Blob.Push.{encode64, b64_chunks, push_b64_chunk, b64_needed}
use am_linux_terminal_robot.Blob.Pull.{decode64, write64, pull_b64_chunk, b64_loop, pull_base64}
use am_linux_terminal_robot.Blob.Buffer.{length-b64_chunks}
use am_linux_terminal_robot.Blob.Hex.{IsByte}

encode_table : all_below 64 (λ x. decode64 (encode64 x) == x) ≡ true
unfolding all_below decode64
encode_table = refl

decode64-encode64 : (x : ℕ) → x < 64 → decode64 (encode64 x) ≡ x
decode64-encode64 x h = (==_iff _ x).0 (holds_below _ 64 x h encode_table)

decode64_pad : decode64 b'=' ≡ 0
unfolding decode64
decode64_pad = refl

-- The four bytes of a chunk that has no byte 255 are written.
chunk_writes :
    (to : Bytes) (f0 f1 f2 f3 t0 t1 t2 t3 : ℕ)
    → (decode64 f0 ≡ t0) × (t0 < 64)
    → (decode64 f1 ≡ t1) × (t1 < 64)
    → (decode64 f2 ≡ t2) × (t2 < 64)
    → (decode64 f3 ≡ t3) × (t3 < 64)
    → (pull_b64_chunk to f0 f1 f2 f3).0 ≡ (write64 to t0 t1 t2 t3 (f2 == b'=') (f3 == b'=')).0
unfolding pull_b64_chunk
chunk_writes to f0 f1 f2 f3 t0 t1 t2 t3 h0 h1 h2 h3 = ground arith

module _ (x y z : ℕ) (hx : IsByte x) (hy : IsByte y) (hz : IsByte z) where
  digit0 : (decode64 (encode64 (x / 4)) ≡ x / 4) × (x / 4 < 64)
  digit0 = (decode64-encode64 _ (omega arith), omega arith)

  digit1 :
      (decode64 (encode64 (x % 4 * 16 + y / 16)) ≡ x % 4 * 16 + y / 16) × (x % 4 * 16 + y / 16 < 64)
  digit1 = (decode64-encode64 _ (omega arith), omega arith)

  digit2 :
      (decode64 (encode64 (y % 16 * 4 + z / 64)) ≡ y % 16 * 4 + z / 64) × (y % 16 * 4 + z / 64 < 64)
  digit2 = (decode64-encode64 _ (omega arith), omega arith)

  digit3 : (decode64 (encode64 (z % 64)) ≡ z % 64) × (z % 64 < 64)
  digit3 = (decode64-encode64 _ (omega arith), omega arith)

padding : (decode64 b'=' ≡ 0) × (0 < 64)
padding = (decode64_pad, omega arith)

chunk_of_three :
    (a b c x y z : ℕ)
    → IsByte x
    → IsByte y
    → IsByte z
    → (pull_b64_chunk
        (a ∷ b ∷ c ∷ [])
        (encode64 (x / 4))
        (encode64 (x % 4 * 16 + y / 16))
        (encode64 (y % 16 * 4 + z / 64))
        (encode64 (z % 64))).0
      ≡ x ∷ y ∷ z ∷ []
chunk_of_three a b c x y z hx hy hz =
    chunk_writes _ _ _ _ _ _ _ _ _ (digit0 x y z hx hy hz) (digit1 x y z hx hy hz)
      (digit2 x y z hx hy hz) (digit3 x y z hx hy hz)
    ∙ ground arith

chunk_of_two :
    (a b x y z : ℕ)
    → IsByte x
    → IsByte y
    → IsByte z
    → (pull_b64_chunk
        (a ∷ b ∷ [])
        (encode64 (x / 4))
        (encode64 (x % 4 * 16 + y / 16))
        (encode64 (y % 16 * 4 + z / 64))
        b'=').0
      ≡ x ∷ y ∷ []
chunk_of_two a b x y z hx hy hz =
    chunk_writes _ _ _ _ _ _ _ _ _ (digit0 x y z hx hy hz) (digit1 x y z hx hy hz)
      (digit2 x y z hx hy hz) padding
    ∙ ground arith

chunk_of_one :
    (a x y : ℕ)
    → IsByte x
    → IsByte y
    → (pull_b64_chunk (a ∷ []) (encode64 (x / 4)) (encode64 (x % 4 * 16 + y / 16)) b'=' b'=').0
      ≡ x ∷ []
chunk_of_one a x y hx hy =
    chunk_writes _ _ _ _ _ _ _ _ _ (digit0 x y 0 hx hy (omega arith))
      (digit1 x y 0 hx hy (omega arith)) padding padding
    ∙ ground arith

b64_loop-b64_chunks :
    (s : Bytes) (next : ℕ) (to rest : Bytes)
    → All IsByte s
    → IsByte next
    → length to ≡ length s
    → b64_loop (b64_chunks s next ++ rest) to ≡ s
unfolding b64_loop b64_chunks push_b64_chunk
b64_loop-b64_chunks [] next [] rest h n e = refl
b64_loop-b64_chunks [] next (t ∷ to) rest h n e = absurd (omega arith)
b64_loop-b64_chunks (x ∷ []) next (a ∷ []) rest h n e = chunk_of_one a x next h.0 n
b64_loop-b64_chunks (x ∷ []) next [] rest h n e = absurd (omega arith)
b64_loop-b64_chunks (x ∷ []) next (a ∷ b ∷ to) rest h n e = absurd (omega arith)
b64_loop-b64_chunks (x ∷ y ∷ []) next (a ∷ b ∷ []) rest h n e =
    chunk_of_two a b x y next h.0 h.1.0 n
b64_loop-b64_chunks (x ∷ y ∷ []) next [] rest h n e = absurd (omega arith)
b64_loop-b64_chunks (x ∷ y ∷ []) next (a ∷ []) rest h n e = absurd (omega arith)
b64_loop-b64_chunks (x ∷ y ∷ []) next (a ∷ b ∷ c ∷ to) rest h n e = absurd (omega arith)
b64_loop-b64_chunks (x ∷ y ∷ z ∷ s) next (a ∷ b ∷ c ∷ to) rest h n e =
    rw
      (
        chunk_of_three a b c x y z h.0 h.1.0 h.1.1.0,
        b64_loop-b64_chunks s next to rest h.1.1.1 n (omega arith),
      )
      refl
b64_loop-b64_chunks (x ∷ y ∷ z ∷ s) next [] rest h n e = absurd (omega arith)
b64_loop-b64_chunks (x ∷ y ∷ z ∷ s) next (a ∷ []) rest h n e = absurd (omega arith)
b64_loop-b64_chunks (x ∷ y ∷ z ∷ s) next (a ∷ b ∷ []) rest h n e = absurd (omega arith)

drop_chunks :
    (s : Bytes) (next : ℕ) (rest : Bytes)
    → drop (b64_needed (length s)) (b64_chunks s next ++ rest) ≡ rest
drop_chunks s next rest = rw (← length-b64_chunks s next) (drop-append (b64_chunks s next) rest)

-- The bytes that are pushed as base 64 are pulled back into a target of their number, whatever it
-- held and whatever byte stands behind the binary; the text behind them is left.
pub pull_base64-b64_chunks :
    (s : Bytes) (next : ℕ) (to rest : Bytes)
    → All IsByte s
    → IsByte next
    → length to ≡ length s
    → pull_base64 (some (b64_chunks s next ++ rest)) to ≡ (s, some rest)
unfolding pull_base64
pull_base64-b64_chunks s next to rest h n e = rw e (
    ground (
      arith,
      b64_loop-b64_chunks s next to rest h n e,
      drop_chunks s next rest,
      length-append {0} (b64_chunks s next) rest,
      length-b64_chunks s next,
    ))

bad_chunk :
    (to : Bytes) (f0 f1 f2 f3 : ℕ) → decode64 f0 ≡ 255 → (pull_b64_chunk to f0 f1 f2 f3).0 ≡ to
unfolding pull_b64_chunk
bad_chunk to f0 f1 f2 f3 h = ground arith

needed_step : (n : ℕ) → b64_needed (suc (suc (suc n))) ≡ suc (suc (suc (suc (b64_needed n))))
needed_step n = omega arith

-- A chunk whose first byte is no base 64 digit, before text that is long enough for the rest of the
-- target, is taken for valid: the target's three bytes keep what they held, and the text is read on
-- behind it.
pub pull_base64_ignores_errors :
    (f0 f1 f2 f3 : ℕ) (s : Bytes) (a b c : ℕ) (to : Bytes)
    → decode64 f0 ≡ 255
    → b64_needed (length to) ≤ length s
    → pull_base64 (some (f0 ∷ f1 ∷ f2 ∷ f3 ∷ s)) (a ∷ b ∷ c ∷ to)
      ≡ (a ∷ b ∷ c ∷ b64_loop s to, some (drop (b64_needed (length to)) s))
unfolding pull_base64 b64_loop
pull_base64_ignores_errors f0 f1 f2 f3 s a b c to h l =
    rw (needed_step (length to), bad_chunk (a ∷ b ∷ c ∷ []) f0 f1 f2 f3 h) (ground arith)
