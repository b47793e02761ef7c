-- ===== src/Io/Input/Skip.antt =====
-- About apk_istream_skip of apk-tools/src/io.c over a stream without errors.
use am_linux_terminal_robot.Common.{
  ℕ, zero, suc, ◌+◌, ◌-◌, ◌%◌, ◌^◌, ◌<◌, ◌≤◌, ◌≡◌, sym, ap, ◌∙◌, true, false, not, Bytes,
  if◌then◌else◌, ltb, ◌==◌, ==_iff, length, length-drop, length-take, empty_of_length, take, drop,
  arith, Bool-cases, inl, inr, ℤ, pos,
}
use am_linux_terminal_robot.Io.Input.{size_of, skip_size, chunk, skip_loop, istream_skip}
use am_linux_terminal_robot.Io.Input.Full.{Gives, IsFull, drop_more}

pub chunk_lem : (most n : ℕ) → 0 < most → 0 < n → (0 < chunk most n) × (chunk most n ≤ n)
chunk_lem most n room h = ground (arith, room, h)

pub small_size : (n : ℕ) → n < 2 ^ 64 → size_of (pos n) ≡ n
small_size n l = omega (arith, l)

module _ {S : Type 0} (read : S → ℕ → S × ℤ × Bytes) (remaining : S → Bytes)
    (full : IsFull read remaining) (size : ℕ) (small : size < 2 ^ 64) where
  -- What is skipped behind `done` bytes.
  pub record Skips (is : S) (done : ℕ) (r : S × ℕ) : Type 0 where
    pub number : r.1 ≡ done + length (take (size - done) (remaining is))
    pub left : remaining r.0 ≡ drop (size - done) (remaining is)

  nothing : (is : S) (done : ℕ) → size ≤ done → Skips is done (is, done)
  nothing is done l = record {
    number = omega (arith, l, length-take (size - done) (remaining is));
    left = sym (ap (λ n. drop n (remaining is)) none_left);
  }
    where
      none_left : size - done ≡ 0
      none_left = omega (arith, l)

  -- A round of the loop.
  module _ (is : S) (done : ℕ) (l : done < size) where
    abbrev togo : ℕ
    togo = chunk skip_size (size - done)

    g : Gives read remaining is togo togo
    g = full is togo

    abbrev got : ℕ
    got = length (take togo (remaining is))

    bounds : (0 < togo) × (togo ≤ size - done)
    bounds = chunk_lem skip_size (size - done) (omega arith) (omega (arith, l))

    got_lem : got ≡ length (remaining is) - (length (remaining is) - togo)
    got_lem = length-take togo (remaining is)

    size_got : size_of (read is togo).1 ≡ got
    size_got = ap size_of g.result ∙ small_size got (omega (arith, got_lem, bounds.1, small))

    next_got : (done + got) % 2 ^ 64 ≡ done + got
    next_got = omega (arith, got_lem, bounds.1, small, l)

    left_length : (n : ℕ) → length (drop n (remaining is)) ≡ length (remaining is) - n
    left_length n = length-drop n (remaining is)

    stops : (got == togo) ≡ false → Skips is done ((read is togo).0, done + got)
    stops e = record {
      number = omega (arith, few, got_lem, bounds.1, length-take (size - done) (remaining is));
      left =
          g.left
          ∙ empty_of_length _ (omega (arith, few, left_length togo))
          ∙ sym (empty_of_length _ (omega (arith, few, bounds.1, left_length (size - done))));
    }
      where
        few : length (remaining is) < togo
        few = ground (arith, e, got_lem)

    goes_on :
        {r : S × ℕ} → (got == togo) ≡ true → Skips (read is togo).0 (done + got) r → Skips is done r
    goes_on e k = record {
      number = omega (
        arith,
        k.number,
        all_got,
        got_lem,
        bounds.1,
        length-take (size - (done + got)) (remaining (read is togo).0),
        ap length g.left,
        left_length togo,
        length-take (size - done) (remaining is),
      );
      left =
          k.left
          ∙ ap (drop (size - (done + got))) g.left
          ∙ drop_more togo (size - done) (size - (done + got)) (remaining is)
              (omega (arith, all_got, bounds.1));
    }
      where
        all_got : got ≡ togo
        all_got = (==_iff got togo).0 e

    round :
        (rest : S × ℕ)
        → ((got == togo) ≡ true → Skips (read is togo).0 (done + got) rest)
        → Skips is done (if not (got == togo) then ((read is togo).0, done + got) else rest)
    round rest k = elim (Bool-cases (got == togo)) [
      | inl e ↦ rw e (goes_on e (k e))
      | inr e ↦ rw e (stops e)
    ]

  below : (done : ℕ) → ltb done size ≡ true → done < size
  below done e = ground (arith, e)

  loop-Skips :
      (fuel : ℕ) (is : S) (done : ℕ)
      → done ≤ size
      → size ≤ done + fuel
      → Skips is done (skip_loop read fuel is size done)
  unfolding skip_loop
  loop-Skips zero is done l enough = nothing is done (omega (arith, enough))
  loop-Skips (suc fuel) is done l enough = elim (Bool-cases (ltb done size)) [
    | inl e ↦
        (let b = below done e in
          rw (e, size_got is done b, next_got is done b)
            (round is done b _ (λ same.
              loop-Skips fuel (read is (togo is done b)).0 (done + got is done b)
                (omega (arith, got_lem is done b, (bounds is done b).1, l))
                (omega (
                  arith,
                  (==_iff (got is done b) (togo is done b)).0 same,
                  (bounds is done b).0,
                  enough,
                )))))
    | inr e ↦ rw e (nothing is done (ground (arith, e)))
  ]

  -- apk_istream_skip, of a size below 2 ^ 64 in a stream whose reads give all that is asked for, but
  -- at the end, returns the number of bytes skipped, which are those asked for as far as there are
  -- any, and leaves the stream behind them.
  pub istream_skip-Skips : (is : S) → Skips is 0 (istream_skip read is size)
  unfolding istream_skip
  istream_skip-Skips is = loop-Skips size is 0 (omega arith) (omega arith)
