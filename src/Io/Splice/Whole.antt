-- ===== src/Io/Splice/Whole.antt =====
-- About apk_istream_splice of apk-tools/src/io.c where writes succeed, and where one fails.
use mathlib.Core.Path.{subst}
use am_linux_terminal_robot.Common.{
  ℕ, zero, suc, ◌-◌, ◌^◌, ◌<◌, ◌≤◌, ◌≡◌, ◌≢◌, ◌⊎◌, refl, sym, ap, ◌∙◌, Bool, true, false, Bytes,
  if◌then◌else◌, ltb, ◌==◌, length, length-take, take, arith, inl, inr, ℤ, pos,
}
use am_linux_terminal_robot.Io.Input.{size_of, chunk}
use am_linux_terminal_robot.Io.Input.Full.{IsFull}
use am_linux_terminal_robot.Io.Input.Skip.{chunk_lem, small_size}
use am_linux_terminal_robot.Io.Splice.{
  map_size, mapped_most, buffer_most, bufsz, is_mapped, splice_loop, istream_splice, can_map, sized,
}
use am_linux_terminal_robot.Io.Splice.Copies.{Writes, Copies, nothing, loop-Copies}

some_or_none : (b : Bool) (n : ℕ) → 0 < n → 0 < (if b then chunk mapped_most n else n)
some_or_none true n h = (chunk_lem mapped_most n (omega arith) h).0
some_or_none false n h = h

bufsz_positive :
    (can_map : Bool) (size : ℕ) → is_mapped can_map size ≡ false → 0 < size → 0 < bufsz can_map size
bufsz_positive can_map size m h =
    rw m (chunk_lem buffer_most _ (omega arith) (some_or_none (ltb map_size size) size h)).0

module _ {S F : Type 0} (read : S → ℕ → S × ℤ × Bytes) (write : F → Bytes → ℕ → F × ℤ)
    (store : F → ℕ → Bytes → F) (remaining : S → Bytes) (contents : F → Bytes)
    (full : IsFull read remaining) where
  some_bytes : (n : ℕ) → (0 < n) ⊎ (n ≡ 0)
  some_bytes zero = inr refl
  some_bytes (suc n) = inl (omega arith)

  none_copied :
      (mapped : Bool) (most : ℕ) (is : S) (fd : F)
      → Copies read write store remaining contents full 0 is fd 0
          (splice_loop read write store 0 mapped most 0 is fd 0)
  unfolding splice_loop
  none_copied mapped most is fd =
      nothing read write store remaining contents full 0 is fd 0 (omega arith)

  from_sized :
      (mapping : Bool) (fd : F) (is : S) (size : ℕ)
      → size < 2 ^ 64
      → is_mapped mapping size ≡ false
      → ((f : F) (b : Bytes) → Writes read write store remaining contents full f b)
      → Copies read write store remaining contents full size is fd 0 (
          splice_loop read write store size
            (is_mapped mapping size)
            (bufsz mapping size)
            size
            is
            fd
            0)
  from_sized mapping fd is size small m w = elim (some_bytes size) [
    | inl h ↦
        subst
          (λ b.
            Copies read write store remaining contents full size is fd 0
              (splice_loop read write store size b (bufsz mapping size) size is fd 0))
          (sym m)
          (loop-Copies read write store remaining contents full size small (bufsz mapping size)
            (bufsz_positive mapping size m h) w size is fd 0 (omega arith) (omega arith))
    | inr e ↦ rw e (none_copied (is_mapped mapping 0) (bufsz mapping 0) is fd)
  ]

  -- apk_istream_splice, of a size below 2 ^ 64 and to a file that is not mapped, returns the number
  -- of bytes copied, which are those asked for as far as the stream holds any, adds them to the bytes
  -- before the position in the file that ftruncate leaves, where the size is above 128 KB, or else in
  -- the file as it was, and leaves the stream behind them, where the reads of the stream give all
  -- that is asked for, but at the end, and each write takes all of its bytes and puts them at the
  -- position. What stands in the file behind the position is not told.
  pub istream_splice-Copies :
      (truncate : F → ℕ → F × Bool) (maps : Bool) (is : S) (fd : F) (size : ℕ)
      → size < 2 ^ 64
      → is_mapped (can_map read write store truncate maps fd size) size ≡ false
      → ((f : F) (b : Bytes) → Writes read write store remaining contents full f b)
      → Copies read write store remaining contents full size is
          (sized read write store truncate maps fd size)
          0
          (istream_splice read write store truncate maps is fd size)
  unfolding istream_splice
  istream_splice-Copies truncate maps is fd size small m w =
      from_sized (can_map read write store truncate maps fd size)
        (sized read write store truncate maps fd size) is size small m w

  none_returned :
      (mapped : Bool) (most : ℕ) (is : S) (fd : F)
      → (splice_loop read write store 0 mapped most 0 is fd 0).2 ≡ 0
  unfolding splice_loop
  none_returned mapped most is fd = refl

  differs : (a b : ℕ) → a ≢ b → (a == b) ≡ false
  differs a b d = ground (arith, d)

  whole_chunk : (most size : ℕ) → size ≤ most → chunk most (size - 0) ≡ size
  whole_chunk most size l = ground (arith, l)

  module _ (is : S) (fd : F) (size : ℕ) (l : size ≤ map_size) (h : size ≤ length (remaining is))
      (w : size_of (write fd (take size (remaining is)) size).1 ≢ size) where
    all_there : length (take size (remaining is)) ≡ size
    all_there = omega (arith, length-take size (remaining is), h)

    size_read : size_of (read is size).1 ≡ size
    size_read =
        ap size_of (full is size).result
        ∙ ap (λ n. size_of (pos n)) all_there
        ∙ small_size size (omega (arith, l))

    one_round :
        (fuel most : ℕ)
        → 0 < size
        → size ≤ most
        → (splice_loop read write store (suc fuel) false most size is fd 0).2 ≡ size
    unfolding splice_loop
    one_round fuel most p q =
        rw
          (
            below size p,
            whole_chunk most size q,
            size_read,
            (full is size).stored,
            differs (size_of (write fd (take size (remaining is)) size).1) size w,
          )
          refl
      where
        below : (n : ℕ) → 0 < n → ltb 0 n ≡ true
        below n p = ground (arith, p)

  not_mapped : (can_map : Bool) (size : ℕ) → size ≤ map_size → is_mapped can_map size ≡ false
  not_mapped can_map size l = rw (small size l) refl
    where
      small : (n : ℕ) → n ≤ map_size → ltb map_size n ≡ false
      small n l = ground (arith, l)

  room : (can_map : Bool) (size : ℕ) → size ≤ map_size → size ≤ bufsz can_map size
  room can_map size l = rw (not_mapped can_map size l) (ground (arith, l))

  small_map : (n : ℕ) → n ≤ map_size → ltb map_size n ≡ false
  small_map n l = ground (arith, l)

  without_map :
      (mapping : Bool) (is : S) (fd : F) (size : ℕ)
      → size ≤ map_size
      → size ≤ length (remaining is)
      → size_of (write fd (take size (remaining is)) size).1 ≢ size
      → (splice_loop read write store size
          (is_mapped mapping size)
          (bufsz mapping size)
          size
          is
          fd
          0).2
        ≡ size
  without_map mapping is fd zero l h w = none_returned (is_mapped mapping 0) (bufsz mapping 0) is fd
  without_map mapping is fd (suc size) l h w =
      subst
        (λ b.
          (splice_loop read write store (suc size) b (bufsz mapping (suc size)) (suc size) is fd
            0).2
          ≡ suc size)
        (sym (not_mapped mapping (suc size) l))
        (one_round is fd (suc size) l h w size (bufsz mapping (suc size)) (omega arith)
          (room mapping (suc size) l))

  -- For a size of 128 KB at most that the stream holds, apk_istream_splice returns the size where the
  -- write fails, or takes another number of bytes, over a stream whose reads give all that is asked
  -- for, but at the end.
  pub istream_splice_ignores_errors :
      (truncate : F → ℕ → F × Bool) (maps : Bool) (is : S) (fd : F) (size : ℕ)
      → size ≤ map_size
      → size ≤ length (remaining is)
      → size_of (write fd (take size (remaining is)) size).1 ≢ size
      → (istream_splice read write store truncate maps is fd size).2 ≡ size
  unfolding istream_splice
  istream_splice_ignores_errors truncate maps is fd size l h w =
      subst
        (λ f.
          (splice_loop read write store size (is_mapped mapping size) (bufsz mapping size) size is f
            0).2
          ≡ size)
        (sym (ap (λ b. if b then (truncate fd size).0 else fd) (small_map size l)))
        (without_map mapping is fd size l h w)
    where
      mapping : Bool
      mapping = can_map read write store truncate maps fd size
