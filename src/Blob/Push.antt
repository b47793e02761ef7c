-- ===== src/Blob/Push.antt =====
-- apk-tools/src/blob.c, lines 151 to 268: text pushed into a buffer of fixed size.
use am_linux_terminal_robot.Common.{
  ℕ, zero, suc, ◌+◌, ◌-◌, ◌*◌, ◌/◌, ◌%◌, true, false, ◌&&◌, Option, none, some, [], ◌∷◌, ◌++◌,
  Bytes, codes, ltb, leb, ◌==◌, if◌then◌else◌, length, get_or,
}

-- `apk_blob_t *to`, where it is not null: what stands before `to->ptr`, and `to->len`.
pub record Out : Type 0 where
  pub written : Bytes
  pub room : ℕ

-- APK_BLOB_BUF of a buffer of `size` bytes.
abbrev pub buffer : ℕ → Option Out
buffer size = some (record { written = []; room = size })

-- dx: the value of a hexadecimal digit; none is -1.
unfoldable pub dx : ℕ → Option ℕ
dx c =
    if leb b'0' c && leb c b'9'
    then some (c - b'0')
    else if leb b'a' c && leb c b'f'
    then some (c - b'a' + 10)
    else if leb b'A' c && leb c b'F'
    then some (c - b'A' + 10)
    else none

unfoldable pub push_blob : Option Out → Bytes → Option Out
push_blob none literal = none
push_blob (some o) literal =
    if ltb o.room (length literal)
    then none
    else some (record { written = o.written ++ literal; room = o.room - length literal })

-- A null literal, which APK_BLOB_STR makes of a null pointer, has no bytes.
abbrev pub literal : Option Bytes → Bytes
literal none = []
literal (some s) = s

-- apk_blob_pushed, for a buffer of `size` bytes: what was pushed, if `left` ends where it does.
unfoldable pub pushed : ℕ → Option Out → Option Bytes
pushed size none = none
pushed size (some left) =
    if length left.written + left.room == size then some left.written else none

abbrev pub xd : Bytes
xd = codes "0123456789abcdefghijklmnopqrstuvwxyz"

-- The `while` of apk_blob_push_uint over the free bytes of `buf`, from its end; none: it is full.
unfoldable pub uint_digits : ℕ → ℕ → ℕ → Bytes → Option Bytes
uint_digits zero value radix done = if value == 0 then some done else none
uint_digits (suc free) value radix done = elim (value == 0) [
  | true ↦ some done
  | false ↦ uint_digits free (value / radix) radix (get_or xd (value % radix) 0 ∷ done)
]

abbrev push_digits : Option Out → Option Bytes → Option Out
push_digits to none = none
push_digits to (some digits) = push_blob to digits

-- apk_blob_push_uint of a 32-bit `value`; `buf` has 64 bytes.
unfoldable pub push_uint : Option Out → ℕ → ℕ → Option Out
push_uint to value radix =
    if value == 0 then push_blob to (codes "0") else push_digits to (uint_digits 64 value radix [])

-- Two digits for each byte; `x >> 4` is `x / 16` and `x & 0xf` is `x % 16`.
unfoldable pub hex_digits : Bytes → Bytes
hex_digits [] = []
hex_digits (x ∷ s) = get_or xd (x / 16 % 16) 0 ∷ get_or xd (x % 16) 0 ∷ hex_digits s

unfoldable pub push_hexdump : Option Out → Bytes → Option Out
push_hexdump none binary = none
push_hexdump (some o) binary =
    if ltb o.room (length binary * 2)
    then none
    else some
        (record { written = o.written ++ hex_digits binary; room = o.room - length binary * 2 })

abbrev pub b64_encode : Bytes
b64_encode = codes "ABCDEFGHIJKLMNOPQRSTUVWXYZabcdefghijklmnopqrstuvwxyz0123456789+/"

abbrev pub encode64 : ℕ → ℕ
encode64 i = get_or b64_encode i 0

-- push_b64_chunk. The operands of each `|` have no bit in common, so it is a sum. `len` is 4 for a
-- full chunk; the bytes past `len` are those that follow in memory.
unfoldable pub push_b64_chunk : ℕ → ℕ → ℕ → ℕ → Bytes
push_b64_chunk x y z len =
    encode64 (x / 4)
    ∷ encode64 (x % 4 * 16 + y / 16)
    ∷ (if ltb len 2 then b'=' else encode64 (y % 16 * 4 + z / 64))
    ∷ (if ltb len 3 then b'=' else encode64 (z % 64))
    ∷ []

-- The loop over whole chunks, and the chunk that is left. `next` is the byte behind `binary` in
-- memory, which the last chunk reads.
unfoldable pub b64_chunks : Bytes → ℕ → Bytes
b64_chunks [] next = []
b64_chunks (x ∷ []) next = push_b64_chunk x next 0 1
b64_chunks (x ∷ y ∷ []) next = push_b64_chunk x y next 2
b64_chunks (x ∷ y ∷ z ∷ s) next = push_b64_chunk x y z 4 ++ b64_chunks s next

abbrev pub b64_needed : ℕ → ℕ
b64_needed n = (n + 2) / 3 * 4

unfoldable pub push_base64 : Option Out → Bytes → ℕ → Option Out
push_base64 none binary next = none
push_base64 (some o) binary next =
    if ltb o.room (b64_needed (length binary))
    then none
    else some (record {
      written = o.written ++ b64_chunks binary next;
      room = o.room - b64_needed (length binary);
    })
