-- ===== src/Blob/Hex.antt =====
-- About `apk_blob_push_hexdump` and `apk_blob_pull_hexdump` of apk-tools/src/blob.c, one after the
-- other, and about the bound test of the second.
use am_linux_terminal_robot.Common.{
  ℕ, ◌*◌, ◌/◌, ◌%◌, ◌≤◌, ◌<◌, ◌≡◌, ◌≢◌, refl, Bool, true, false, Option, none, some, [], ◌∷◌, ◌++◌,
  Bytes, ◌==◌, length, All, arith, length-append, all_below, holds_below, get_or,
}
use am_linux_terminal_robot.Blob.Push.{dx, xd, hex_digits}
use am_linux_terminal_robot.Blob.Pull.{Pulled, cons_pulled, hex_loop, pull_hexdump}
use am_linux_terminal_robot.Blob.Buffer.{length-hex_digits}

abbrev pub IsByte : ℕ → Type 0
IsByte x = x < 256

abbrev is_some_of : ℕ → Option ℕ → Bool
is_some_of x none = false
is_some_of x (some y) = x == y

dx_table : all_below 16 (λ x. is_some_of x (dx (get_or xd x 0))) ≡ true
unfolding all_below dx
dx_table = refl

is_some_of_lem : (x : ℕ) (o : Option ℕ) → is_some_of x o ≡ true → o ≡ some x
is_some_of_lem x none h = cc
is_some_of_lem x (some y) h = ground arith

pub dx-xd : (x : ℕ) → x < 16 → dx (get_or xd x 0) ≡ some x
dx-xd x h = is_some_of_lem x _ (holds_below _ 16 x h dx_table)

hex_loop-hex_digits :
    (s to rest : Bytes)
    → All IsByte s
    → length to ≡ length s
    → hex_loop (hex_digits s ++ rest) to ≡ some (s, some rest)
unfolding hex_loop hex_digits
hex_loop-hex_digits [] [] rest h e = refl
hex_loop-hex_digits [] (t ∷ to) rest h e = absurd (omega arith)
hex_loop-hex_digits (x ∷ s) [] rest h e = absurd (omega arith)
hex_loop-hex_digits (x ∷ s) (t ∷ to) rest h e =
    rw
      (
        dx-xd (x / 16 % 16) (omega arith),
        dx-xd (x % 16) (omega arith),
        hex_loop-hex_digits s to rest h.1 (omega arith),
        hex_loop,
      )
      (ground arith)

-- The bytes that are pushed as hexadecimal text are pulled back into a target of their number,
-- whatever it held, and the text behind them is left.
pub pull_hexdump-hex_digits :
    (s to rest : Bytes)
    → All IsByte s
    → length to ≡ length s
    → pull_hexdump (some (hex_digits s ++ rest)) to ≡ some (s, some rest)
unfolding pull_hexdump
pull_hexdump-hex_digits s to rest h e = ground (
  arith,
  hex_loop-hex_digits s to rest h e,
  length-append {0} (hex_digits s) rest,
  length-hex_digits s,
)

cons_pulled-ne-none : (x : ℕ) (p : Pulled) → p ≢ none → cons_pulled x p ≢ none
cons_pulled-ne-none x none h = h
cons_pulled-ne-none x (some (to, b)) h = λ e. cc

hex_loop-ne-none : (s to : Bytes) → length to * 2 ≤ length s → hex_loop s to ≢ none
unfolding hex_loop
hex_loop-ne-none s [] h = λ e. cc
hex_loop-ne-none [] (t ∷ to) h = absurd (omega arith)
hex_loop-ne-none (c ∷ []) (t ∷ to) h = absurd (omega arith)
hex_loop-ne-none (c ∷ d ∷ s) (t ∷ to) h = ground (arith, hex_loop-ne-none s to)

-- A blob with two bytes for each of the target's is never read past its end, whatever it holds.
pub pull_hexdump_in_bounds :
    (s to : Bytes) → length to * 2 ≤ length s → pull_hexdump (some s) to ≢ none
unfolding pull_hexdump
pull_hexdump_in_bounds s to h = ground (arith, hex_loop-ne-none s to h)

abbrev pub IsHex : ℕ → Type 0
IsHex c = dx c ≢ none

hex_loop_past_end : (s to : Bytes) → All IsHex s → length s < length to * 2 → hex_loop s to ≡ none
unfolding hex_loop
hex_loop_past_end s [] h l = absurd (omega arith)
hex_loop_past_end [] (t ∷ to) h l = refl
hex_loop_past_end (c ∷ []) (t ∷ to) h l = ground (arith, h.0)
hex_loop_past_end (c ∷ d ∷ s) (t ∷ to) h l =
    ground (arith, h.0, h.1.0, hex_loop_past_end s to h.1.1 (omega arith))

-- The bound test compares with the wrong side doubled: hexadecimal text that is too short for the
-- target, but has half a byte for each of its bytes, passes it and is read past its end.
pub pull_hexdump_past_end :
    (s to : Bytes)
    → All IsHex s
    → length s < length to * 2
    → length to ≤ length s * 2
    → pull_hexdump (some s) to ≡ none
unfolding pull_hexdump
pull_hexdump_past_end s to h l g = ground (arith, hex_loop_past_end s to h l)
