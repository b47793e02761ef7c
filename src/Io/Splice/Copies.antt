-- ===== src/Io/Splice/Copies.antt =====
-- About apk_istream_splice of apk-tools/src/io.c where the file is not mapped to memory.
use am_linux_terminal_robot.Common.{
  ℕ, zero, suc, ◌+◌, ◌-◌, ◌%◌, ◌^◌, ◌<◌, ◌≤◌, ◌≡◌, sym, ap, ◌∙◌, true, false, not, [], ◌++◌,
  append_assoc, append-nil, Bytes, if◌then◌else◌, ltb, ◌==◌, ==_iff, ==_refl, length, length-append,
  length-drop, length-take, empty_of_length, take, drop, arith, Bool-cases, inl, inr, ℤ, pos,
}
use am_linux_terminal_robot.Io.Input.{size_of, chunk}
use am_linux_terminal_robot.Io.Input.Full.{Gives, IsFull, take_more, drop_more}
use am_linux_terminal_robot.Io.Input.Skip.{chunk_lem, small_size}
use am_linux_terminal_robot.Io.Splice.{splice_loop}

module _ {S F : Type 0} (read : S → ℕ → S × ℤ × Bytes) (write : F → Bytes → ℕ → F × ℤ)
    (store : F → ℕ → Bytes → F) (remaining : S → Bytes) (contents : F → Bytes)
    (full : IsFull read remaining) where
  -- A write of some bytes takes them all.
  pub record Writes (fd : F) (b : Bytes) : Type 0 where
    pub result : (write fd b (length b)).1 ≡ pos (length b)
    pub appended : contents (write fd b (length b)).0 ≡ contents fd ++ b

  -- What is copied of `size` bytes behind `done` bytes.
  pub record Copies (size : ℕ) (is : S) (fd : F) (done : ℕ) (r : S × F × ℕ) : Type 0 where
    pub number : r.2 ≡ done + length (take (size - done) (remaining is))
    pub copied : contents r.1 ≡ contents fd ++ take (size - done) (remaining is)
    pub left : remaining r.0 ≡ drop (size - done) (remaining is)

  pub nothing :
      (size : ℕ) (is : S) (fd : F) (done : ℕ) → size ≤ done → Copies size is fd done (is, fd, done)
  nothing size is fd done l = record {
    number = omega (arith, l, length-take (size - done) (remaining is));
    copied =
        sym (ap (λ n. contents fd ++ take n (remaining is)) none_left ∙ append-nil (contents fd));
    left = sym (ap (λ n. drop n (remaining is)) none_left);
  }
    where
      none_left : size - done ≡ 0
      none_left = omega (arith, l)

  module _ (size : ℕ) (small : size < 2 ^ 64) (most : ℕ) (some_room : 0 < most)
      (writes : (fd : F) (b : Bytes) → Writes fd b) where
    -- A round of the loop.
    module _ (is : S) (fd : F) (done : ℕ) (l : done < size) where
      abbrev togo : ℕ
      togo = chunk most (size - done)

      abbrev some_bytes : Bytes
      some_bytes = take togo (remaining is)

      g : Gives read remaining is togo togo
      g = full is togo

      bounds : (0 < togo) × (togo ≤ size - done)
      bounds = chunk_lem most (size - done) some_room (omega (arith, l))

      got_lem : length some_bytes ≡ length (remaining is) - (length (remaining is) - togo)
      got_lem = length-take togo (remaining is)

      abbrev fd1 : F
      fd1 = (write fd some_bytes (length some_bytes)).0

      stops :
          (length some_bytes == togo) ≡ false
          → Copies size is fd done ((read is togo).0, fd1, done + length some_bytes)
      stops e = record {
        number = omega (arith, few, got_lem, bounds.1, length-take (size - done) (remaining is));
        copied = (writes fd some_bytes).appended ∙ ap (λ b. contents fd ++ b) same_bytes;
        left =
            g.left
            ∙ empty_of_length _ (omega (arith, few, length-drop togo (remaining is)))
            ∙ sym (
                empty_of_length _
                  (omega (arith, few, bounds.1, length-drop (size - done) (remaining is))));
      }
        where
          few : length (remaining is) < togo
          few = ground (arith, e, got_lem)

          no_more : take (size - done - togo) (drop togo (remaining is)) ≡ []
          no_more = empty_of_length _ (
              omega (
                arith,
                few,
                length-take (size - done - togo) (drop togo (remaining is)),
                length-drop togo (remaining is),
              ))

          same_bytes : some_bytes ≡ take (size - done) (remaining is)
          same_bytes =
              sym (ap (λ b. some_bytes ++ b) no_more ∙ append-nil some_bytes)
              ∙ take_more togo (size - done) (size - done - togo) (remaining is)
                  (omega (arith, bounds.1))

      goes_on :
          {r : S × F × ℕ}
          → (length some_bytes == togo) ≡ true
          → Copies size (read is togo).0 fd1 (done + length some_bytes) r
          → Copies size is fd done r
      goes_on e k = record {
        number =
            k.number
            ∙ omega (
              arith,
              ap length more,
              length-append some_bytes (take still (remaining (read is togo).0)),
            );
        copied =
            k.copied
            ∙ ap (λ b. b ++ take still (remaining (read is togo).0)) (writes fd some_bytes).appended
            ∙ append_assoc (contents fd) some_bytes (take still (remaining (read is togo).0))
            ∙ ap (λ b. contents fd ++ b) more;
        left =
            k.left
            ∙ ap (drop still) g.left
            ∙ drop_more togo (size - done) still (remaining is) (omega (arith, all_got, bounds.1));
      }
        where
          all_got : length some_bytes ≡ togo
          all_got = (==_iff (length some_bytes) togo).0 e

          still : ℕ
          still = size - (done + length some_bytes)

          more :
              some_bytes ++ take still (remaining (read is togo).0)
              ≡ take (size - done) (remaining is)
          more =
              ap (λ b. some_bytes ++ take still b) g.left
              ∙ take_more togo (size - done) still (remaining is) (omega (arith, all_got, bounds.1))

      round :
          (rest : S × F × ℕ)
          → ((length some_bytes == togo) ≡ true
              → Copies size (read is togo).0 fd1 (done + length some_bytes) rest)
          → Copies size is fd done (
              if not (length some_bytes == togo)
              then ((read is togo).0, fd1, done + length some_bytes)
              else rest)
      round rest k = elim (Bool-cases (length some_bytes == togo)) [
        | inl e ↦ rw e (goes_on e (k e))
        | inr e ↦ rw e (stops e)
      ]

      small_got : size_of (pos (length some_bytes)) ≡ length some_bytes
      small_got = small_size (length some_bytes) (omega (arith, got_lem, bounds.1, small))

      next_got : (done + length some_bytes) % 2 ^ 64 ≡ done + length some_bytes
      next_got = omega (arith, got_lem, bounds.1, small, l)

    pub loop-Copies :
        (fuel : ℕ) (is : S) (fd : F) (done : ℕ)
        → done ≤ size
        → size ≤ done + fuel
        → Copies size is fd done (splice_loop read write store fuel false most size is fd done)
    unfolding splice_loop
    loop-Copies zero is fd done l enough = nothing size is fd done (omega (arith, enough))
    loop-Copies (suc fuel) is fd done l enough = elim (Bool-cases (ltb done size)) [
      | inl e ↦
          (let b : done < size = ground (arith, e) in
            rw
              (
                e,
                (g is fd done b).result,
                (g is fd done b).stored,
                small_got is fd done b,
                (writes fd (some_bytes is fd done b)).result,
                small_got is fd done b,
                ==_refl (length (some_bytes is fd done b)),
                next_got is fd done b,
              )
              (round is fd done b _ (λ same.
                loop-Copies fuel (read is (togo is fd done b)).0 (fd1 is fd done b)
                  (done + length (some_bytes is fd done b))
                  (omega (arith, got_lem is fd done b, (bounds is fd done b).1, l))
                  (omega (
                    arith,
                    (==_iff (length (some_bytes is fd done b)) (togo is fd done b)).0 same,
                    (bounds is fd done b).0,
                    enough,
                  )))))
      | inr e ↦ rw e (nothing size is fd done (ground (arith, e)))
    ]
