-- ===== src/Blob/Pull.antt =====
-- apk-tools/src/blob.c, lines 270 to 434 but for `apk_blob_pull_csum`: values pulled from a blob.
use am_linux_terminal_robot.Common.{
  ℕ, ◌+◌, ◌*◌, ◌/◌, ◌%◌, ◌^◌, Bool, true, false, ◌&&◌, ◌||◌, Option, none, some, [], ◌∷◌, ◌++◌,
  Bytes, ltb, leb, ◌==◌, if◌then◌else◌, length, get_or, drop,
}
use am_linux_terminal_robot.Blob.Push.{dx, b64_needed}

unfoldable pub pull_char : Option Bytes → ℕ → Option Bytes
pull_char none expected = none
pull_char (some []) expected = none
pull_char (some (c ∷ s)) expected = if c == expected then some s else none

-- `ch < 0 || ch >= radix` breaks the loop.
abbrev pub digit_below : ℕ → Option ℕ → Option ℕ
digit_below radix none = none
digit_below radix (some d) = if ltb d radix then some d else none

-- The loop of apk_blob_pull_uint; `val` is an `unsigned int`.
unfoldable pub pull_uint_loop : ℕ → ℕ → Bytes → ℕ × Bytes
pull_uint_loop radix val [] = (val, [])
pull_uint_loop radix val (c ∷ s) = elim (c == 0) [
  | true ↦ (val, c ∷ s)
  | false ↦ elim (digit_below radix (dx c)) [
    | none ↦ (val, c ∷ s)
    | some d ↦ pull_uint_loop radix ((val * radix + d) % 2 ^ 32) s
  ]
]

-- A null blob has the length 0.
unfoldable pub pull_uint : Option Bytes → ℕ → ℕ × Option Bytes
pull_uint none radix = (0, none)
pull_uint (some s) radix = let (val, rest) = pull_uint_loop radix 0 s in (val, some rest)

-- The bytes of the target and the blob behind a call; none: a byte outside the blob is read.
abbrev pub Pulled : Type 0
Pulled = Option (Bytes × Option Bytes)

abbrev pub cons_pulled : ℕ → Pulled → Pulled
cons_pulled x none = none
cons_pulled x (some (to, b)) = some (x ∷ to, b)

-- The loop of apk_blob_pull_hexdump over the bytes of the target. An error keeps the rest of them.
unfoldable pub hex_loop : Bytes → Bytes → Pulled
hex_loop s [] = some ([], some s)
hex_loop [] (t ∷ to) = none
hex_loop (c ∷ []) (t ∷ to) = elim (dx c) [ none ↦ some (t ∷ to, none) | some r ↦ none ]
hex_loop (c ∷ d ∷ s) (t ∷ to) = elim (dx c) [
  | none ↦ some (t ∷ to, none)
  | some r1 ↦ elim (dx d) [
    | none ↦ some (t ∷ to, none)
    | some r2 ↦ cons_pulled ((r1 * 16 + r2) % 256) (hex_loop s to)
  ]
]

unfoldable pub pull_hexdump : Option Bytes → Bytes → Pulled
pull_hexdump none to = some (to, none)
pull_hexdump (some s) to = if ltb (length s * 2) (length to) then some (to, none) else hex_loop s to

abbrev pub b64_decode : Bytes
b64_decode =
    255 ∷ 255 ∷ 255 ∷ 255 ∷ 255 ∷ 255 ∷ 255 ∷ 255 ∷ 255 ∷ 255 ∷ 255 ∷ 255 ∷ 255 ∷ 255 ∷ 255 ∷ 255
    ∷ 255 ∷ 255 ∷ 255 ∷ 255 ∷ 255 ∷ 255 ∷ 255 ∷ 255 ∷ 255 ∷ 255 ∷ 255 ∷ 255 ∷ 255 ∷ 255 ∷ 255 ∷ 255
    ∷ 255 ∷ 255 ∷ 255 ∷ 255 ∷ 255 ∷ 255 ∷ 255 ∷ 255 ∷ 255 ∷ 255 ∷ 255 ∷ 0x3e ∷ 255 ∷ 255 ∷ 255
    ∷ 0x3f ∷ 0x34 ∷ 0x35 ∷ 0x36 ∷ 0x37 ∷ 0x38 ∷ 0x39 ∷ 0x3a ∷ 0x3b ∷ 0x3c ∷ 0x3d ∷ 255 ∷ 255 ∷ 255
    ∷ 0x00 ∷ 255 ∷ 255 ∷ 255 ∷ 0x00 ∷ 0x01 ∷ 0x02 ∷ 0x03 ∷ 0x04 ∷ 0x05 ∷ 0x06 ∷ 0x07 ∷ 0x08 ∷ 0x09
    ∷ 0x0a ∷ 0x0b ∷ 0x0c ∷ 0x0d ∷ 0x0e ∷ 0x0f ∷ 0x10 ∷ 0x11 ∷ 0x12 ∷ 0x13 ∷ 0x14 ∷ 0x15 ∷ 0x16
    ∷ 0x17 ∷ 0x18 ∷ 0x19 ∷ 255 ∷ 255 ∷ 255 ∷ 255 ∷ 255 ∷ 255 ∷ 0x1a ∷ 0x1b ∷ 0x1c ∷ 0x1d ∷ 0x1e
    ∷ 0x1f ∷ 0x20 ∷ 0x21 ∷ 0x22 ∷ 0x23 ∷ 0x24 ∷ 0x25 ∷ 0x26 ∷ 0x27 ∷ 0x28 ∷ 0x29 ∷ 0x2a ∷ 0x2b
    ∷ 0x2c ∷ 0x2d ∷ 0x2e ∷ 0x2f ∷ 0x30 ∷ 0x31 ∷ 0x32 ∷ 0x33 ∷ 255 ∷ 255 ∷ 255 ∷ 255 ∷ 255 ∷ []

-- `tmp[i]`; 255 where the code returns -1.
unfoldable pub decode64 : ℕ → ℕ
decode64 c = if leb 0x80 c then 255 else get_or b64_decode c 255

abbrev pub bad64 : ℕ → Bool
bad64 c = decode64 c == 255

-- The writes of `pull_b64_chunk` to a target of one, two or three bytes, and whether it returns 0.
-- A value of `tmp` is below 64, so the operands of each `|` have no bit in common: it is a sum.
abbrev pub write64 : Bytes → ℕ → ℕ → ℕ → ℕ → Bool → Bool → Bytes × Bool
write64 [] t0 t1 t2 t3 pad2 pad3 = ([], true)
write64 (a ∷ []) t0 t1 t2 t3 pad2 pad3 = ((t0 * 4 + t1 / 16) % 256 ∷ [], pad2 && pad3)
write64 (a ∷ b ∷ []) t0 t1 t2 t3 pad2 pad3 =
    ((t0 * 4 + t1 / 16) % 256 ∷ (t1 * 16 + t2 / 4) % 256 ∷ [], pad3)
write64 (a ∷ b ∷ c ∷ to) t0 t1 t2 t3 pad2 pad3 =
    ((t0 * 4 + t1 / 16) % 256 ∷ (t1 * 16 + t2 / 4) % 256 ∷ (t2 * 64 % 256 + t3) ∷ to, true)

-- A byte that is no digit leaves the target as it was.
unfoldable pub pull_b64_chunk : Bytes → ℕ → ℕ → ℕ → ℕ → Bytes × Bool
pull_b64_chunk to f0 f1 f2 f3 =
    if bad64 f0 || bad64 f1 || bad64 f2 || bad64 f3
    then (to, false)
    else write64 to (decode64 f0) (decode64 f1) (decode64 f2) (decode64 f3) (f2 == b'=')
        (f3 == b'=')

-- The loop over whole chunks, and the chunk that is left; what `pull_b64_chunk` returns is ignored.
-- The caller has seen that the blob is long enough.
unfoldable pub b64_loop : Bytes → Bytes → Bytes
b64_loop s [] = []
b64_loop (f0 ∷ f1 ∷ f2 ∷ f3 ∷ s) (a ∷ []) = (pull_b64_chunk (a ∷ []) f0 f1 f2 f3).0
b64_loop (f0 ∷ f1 ∷ f2 ∷ f3 ∷ s) (a ∷ b ∷ []) = (pull_b64_chunk (a ∷ b ∷ []) f0 f1 f2 f3).0
b64_loop (f0 ∷ f1 ∷ f2 ∷ f3 ∷ s) (a ∷ b ∷ c ∷ to) =
    (pull_b64_chunk (a ∷ b ∷ c ∷ []) f0 f1 f2 f3).0 ++ b64_loop s to
b64_loop _ to = to

-- The target's bytes and the blob behind the call.
unfoldable pub pull_base64 : Option Bytes → Bytes → Bytes × Option Bytes
pull_base64 none to = (to, none)
pull_base64 (some s) to =
    if ltb (length s) (b64_needed (length to))
    then (to, none)
    else (b64_loop s to, some (drop (b64_needed (length to)) s))
