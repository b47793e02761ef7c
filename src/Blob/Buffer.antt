-- ===== src/Blob/Buffer.antt =====
-- About the pushes of apk-tools/src/blob.c: the room of a buffer and what it holds.
use am_linux_terminal_robot.Common.{
  ℕ, ◌+◌, ◌*◌, ◌<◌, ◌≡◌, refl, ap, inl, inr, Option, none, some, [], ◌∷◌, ◌++◌, Bytes, ltb, length,
  Bool-cases, arith, length-append, append_assoc,
}
use am_linux_terminal_robot.Blob.Push.{
  Out, push_blob, hex_digits, push_hexdump, push_b64_chunk, b64_chunks, b64_needed, push_base64,
}

-- The bytes written and the room that is left make up the buffer; null is what an overflow leaves.
abbrev pub Fits : ℕ → Option Out → Type 0
Fits size none = Unit
Fits size (some o) = length o.written + o.room ≡ size

-- `to'` is null, or it is `to` with `text` behind what was written and that much less room.
abbrev pub Pushes : Option Out → Bytes → Option Out → Type 0
Pushes none text to' = to' ≡ none
Pushes (some o) text none = o.room < length text
Pushes (some o) text (some o') = (o'.written ≡ o.written ++ text) × (o'.room + length text ≡ o.room)

pub push_blob-Pushes : (to : Option Out) (text : Bytes) → Pushes to text (push_blob to text)
unfolding push_blob
push_blob-Pushes none text = refl
push_blob-Pushes (some o) text = elim (Bool-cases (ltb o.room (length text))) [
  | inl e ↦ rw e (ground arith)
  | inr e ↦ rw e (refl, ground arith)
]

pub length-hex_digits : (s : Bytes) → length (hex_digits s) ≡ length s * 2
unfolding hex_digits
length-hex_digits [] = refl
length-hex_digits (x ∷ s) = omega (arith, length-hex_digits s)

pub length-b64_chunks : (s : Bytes) (next : ℕ) → length (b64_chunks s next) ≡ b64_needed (length s)
unfolding b64_chunks push_b64_chunk
length-b64_chunks [] next = refl
length-b64_chunks (x ∷ []) next = refl
length-b64_chunks (x ∷ y ∷ []) next = refl
length-b64_chunks (x ∷ y ∷ z ∷ s) next = omega (arith, length-b64_chunks s next)

pub push_hexdump-Pushes :
    (to : Option Out) (binary : Bytes) → Pushes to (hex_digits binary) (push_hexdump to binary)
unfolding push_hexdump
push_hexdump-Pushes none binary = refl
push_hexdump-Pushes (some o) binary = elim (Bool-cases (ltb o.room (length binary * 2))) [
  | inl e ↦ rw e (ground (arith, length-hex_digits binary))
  | inr e ↦ rw e (refl, ground (arith, length-hex_digits binary))
]

pub push_base64-Pushes :
    (to : Option Out) (binary : Bytes) (next : ℕ)
    → Pushes to (b64_chunks binary next) (push_base64 to binary next)
unfolding push_base64
push_base64-Pushes none binary next = refl
push_base64-Pushes (some o) binary next =
    elim (Bool-cases (ltb o.room (b64_needed (length binary)))) [
      | inl e ↦ rw e (ground (arith, length-b64_chunks binary next))
      | inr e ↦ rw e (refl, ground (arith, length-b64_chunks binary next))
    ]

pub Fits-Pushes :
    (size : ℕ) (to to' : Option Out) (text : Bytes)
    → Fits size to
    → Pushes to text to'
    → Fits size to'
Fits-Pushes size none none text f p = tt
Fits-Pushes size none (some o') text f p = cc
Fits-Pushes size (some o) none text f p = tt
Fits-Pushes size (some o) (some o') text f p =
    omega (arith, ap length p.0, length-append {0} o.written text)

-- Two pushes are one push of both texts.
pub Pushes-append :
    (to to1 to2 : Option Out) (s t : Bytes)
    → Pushes to s to1
    → Pushes to1 t to2
    → Pushes to (s ++ t) to2
Pushes-append none none to2 s t p q = q
Pushes-append none (some o1) to2 s t p q = cc
Pushes-append (some o) none none s t p q = omega (arith, length-append {0} s t)
Pushes-append (some o) none (some o2) s t p q = cc
Pushes-append (some o) (some o1) none s t p q = omega (arith, length-append {0} s t)
Pushes-append (some o) (some o1) (some o2) s t p q =
    (cc (append_assoc o.written s t), omega (arith, length-append {0} s t))
