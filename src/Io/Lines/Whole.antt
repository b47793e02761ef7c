-- ===== src/Io/Lines/Whole.antt =====
-- About a client of apk-tools/src/io.c that reads a text to its end.
use mathlib.Core.Path.{subst}
use am_linux_terminal_robot.Common.{
  ℕ, zero, suc, ◌+◌, ◌-◌, ◌<◌, ◌≤◌, ◌≡◌, ◌⊎◌, refl, sym, ap, ◌∙◌, some, [], ◌∷◌, ◌++◌, append-nil,
  Bytes, length, length-append, empty_of_length, length-drop, arith, inl, inr, ℤ, pos,
}
use am_linux_terminal_robot.Blob.Splitting.{Lacks}
use am_linux_terminal_robot.Io.Input.Full.{IsFull}
use am_linux_terminal_robot.Io.Lines.{
  Block, bytes, no_bytes, IstreamBstream, buffer_size, ret_end, refill, or_refill, read_left,
  is_bs_read,
}
use am_linux_terminal_robot.Io.Lines.Cuts.{split-Lacks}
use am_linux_terminal_robot.Io.Lines.Buffered.{
  At, Next, Reads, is1, more, behind, g, kept_whole, counted_more, length-more, refill-more,
}

prefix-Lacks : (c : ℕ) (a b : Bytes) → Lacks c (a ++ b) → Lacks c a
prefix-Lacks c [] b h = tt
prefix-Lacks c (x ∷ a) b h = (h.0, prefix-Lacks c a b h.1)

some_or_none : (n : ℕ) → (0 < n) ⊎ (n ≡ 0)
some_or_none zero = inr refl
some_or_none (suc n) = inl (omega arith)

module _ {S : Type 0} (read : S → ℕ → S × ℤ × Bytes) (remaining : S → Bytes)
    (full : IsFull read remaining) (c total : ℕ) where
  module _ (isbs : IstreamBstream S) (b content : Bytes)
      (a : At read remaining full c total isbs b content) where
    abbrev more_here : Bytes
    more_here = more read remaining full c total isbs b content a

    abbrev here : S
    here = is1 read remaining full c total isbs b content a

    abbrev behind_here : Bytes
    behind_here = behind read remaining full c total isbs b content a

    refill_none :
        length more_here ≡ 0
        → refill read (some (c, [])) isbs b
          ≡ ret_end read (record { is = here; left = bytes b; size = isbs.size }) b
    refill_none h = rw ((g read remaining full c total isbs b content a).result, h) refl

    module _ (l : Lacks c content) (fits : length content ≤ buffer_size) where
      all_read : remaining here ≡ []
      all_read = empty_of_length _ (
          omega (
            arith,
            ap length (g read remaining full c total isbs b content a).left,
            length-drop (buffer_size - length b) (remaining isbs.is),
            fits,
            ap length a.all_left,
            length-append b (remaining isbs.is),
          ))

      whole_more : b ++ more_here ≡ content
      whole_more =
          sym (append-nil (b ++ more_here))
          ∙ ap (λ t. (b ++ more_here) ++ t)
              (sym all_read ∙ (g read remaining full c total isbs b content a).left)
          ∙ kept_whole read remaining full c total isbs b content a

      after_rest :
          {left : Block} (size : ℕ)
          → left ≡ bytes []
          → size + length (remaining here) ≡ total
          → At read remaining full c total (record { is = here; left = left; size = size }) [] []
      after_rest size e q = record {
        is_left = e;
        all_left = all_read;
        room = omega arith;
        counted = q;
      }

      refill_rest :
          0 < length content
          → Next read remaining full c total (refill read (some (c, [])) isbs b) content []
      refill_rest h = elim (some_or_none (length more_here)) [
        | inl p ↦
            rw
              (
                refill-more read remaining full c total isbs b content a p,
                whole_more,
                split-Lacks c content l,
              )
              (record {
                kept = [];
                gives = refl;
                after =
                    after_rest (isbs.size + length more_here) refl
                      (counted_more read remaining full c total isbs b content a);
              })
        | inr z ↦ rw (refill_none z) (ended z b refl)
      ]
        where
          ended :
              length more_here ≡ 0
              → (b' : Bytes) → b ≡ b'
              → Next read remaining full c total
                  (ret_end read (record { is = here; left = bytes b; size = isbs.size }) b')
                  content
                  []
          ended z [] e =
              absurd
                (omega (arith, z, h, ap length e, ap length whole_more, length-append b more_here))
          ended z (x ∷ b') e = record {
            kept = [];
            gives = ap bytes (
                sym e
                ∙ sym (append-nil b)
                ∙ ap (λ t. b ++ t) (sym (empty_of_length more_here z))
                ∙ whole_more);
            after =
                after_rest isbs.size refl
                  (omega (arith, z, counted_more read remaining full c total isbs b content a));
          }

  pub rest_Reads :
      (isbs : IstreamBstream S) (b content : Bytes)
      → At read remaining full c total isbs b content
      → Lacks c content
      → length content ≤ buffer_size
      → 0 < length content
      → Reads read remaining full c total isbs content []
  unfolding is_bs_read
  rest_Reads isbs [] content a l fits h = record {
    to = refill read (some (c, [])) isbs [];
    reads = ap (read_left read (some (c, [])) isbs) a.is_left;
    next = refill_rest isbs [] content a l fits h;
  }
  rest_Reads isbs (x ∷ b) content a l fits h = record {
    to = refill read (some (c, [])) isbs (x ∷ b);
    reads =
        ap (read_left read (some (c, [])) isbs) a.is_left
        ∙ ap (λ o. some (or_refill read (some (c, [])) isbs (x ∷ b) o))
            (split-Lacks c (x ∷ b)
              (prefix-Lacks c (x ∷ b) (remaining isbs.is) (subst (Lacks c) (sym a.all_left) l)));
    next = refill_rest isbs (x ∷ b) content a l fits h;
  }

  -- At the end a read gives a null pointer.
  pub record Ends (isbs : IstreamBstream S) : Type 0 where
    pub to : IstreamBstream S
    pub reads : is_bs_read read isbs (some (c, [])) ≡ some (to, no_bytes (pos 0))
    pub all_counted : to.size ≡ total

  pub end_Ends :
      (isbs : IstreamBstream S) (b : Bytes) → At read remaining full c total isbs b [] → Ends isbs
  unfolding is_bs_read
  end_Ends isbs [] a = record {
    to = record { is = here isbs [] [] a; left = no_bytes (pos 0); size = isbs.size };
    reads =
        ap (read_left read (some (c, [])) isbs) a.is_left
        ∙ ap some (
            refill_none isbs [] [] a
              (omega (arith, nothing_left, length-more read remaining full c total isbs [] [] a)));
    all_counted = omega (arith, a.counted, nothing_left);
  }
    where
      nothing_left : length (remaining isbs.is) ≡ 0
      nothing_left = ap length a.all_left
  end_Ends isbs (x ∷ b) a = absurd (cc (a.all_left))
