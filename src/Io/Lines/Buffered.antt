-- ===== src/Io/Lines/Buffered.antt =====
-- About is_bs_read and mmap_read of apk-tools/src/io.c for a client that reads a text line by line.
use am_linux_terminal_robot.Common.{
  ℕ, suc, ◌+◌, ◌-◌, ◌<◌, ◌≤◌, ◌≡◌, refl, ap, ◌∙◌, true, some, [], ◌∷◌, ◌++◌, append_assoc, Bytes,
  length, length-append, length-take, length-drop, take, drop, take-append-drop, arith, ℤ, pos,
  ltb_ℤ,
}
use am_linux_terminal_robot.Blob.Splitting.{Lacks}
use am_linux_terminal_robot.Io.Input.Full.{Gives, IsFull}
use am_linux_terminal_robot.Io.Lines.{
  Block, bytes, IstreamBstream, buffer_size, ret_more, refill, or_refill, read_left, is_bs_read,
}
use am_linux_terminal_robot.Io.Lines.Cuts.{Cut, short, whole, split-Cut}

module _ {S : Type 0} (read : S → ℕ → S × ℤ × Bytes) (remaining : S → Bytes)
    (full : IsFull read remaining) (c total : ℕ) where
  -- A stream that has `content` left, of a text of `total` bytes.
  pub record At (isbs : IstreamBstream S) (b content : Bytes) : Type 0 where
    pub is_left : isbs.left ≡ bytes b
    pub all_left : b ++ remaining isbs.is ≡ content
    pub room : length b < buffer_size
    pub counted : isbs.size + length (remaining isbs.is) ≡ total

  -- The next read gives a blob, and leaves some content.
  pub record Next (r : IstreamBstream S × Block) (l content : Bytes) : Type 0 where
    pub kept : Bytes
    pub gives : r.1 ≡ bytes l
    pub after : At r.0 kept content

  -- What a refill does with the bytes there are.
  module _ (isbs : IstreamBstream S) (b content : Bytes) (a : At isbs b content) where
    abbrev pub more : Bytes
    more = take (buffer_size - length b) (remaining isbs.is)

    abbrev pub behind : Bytes
    behind = drop (buffer_size - length b) (remaining isbs.is)

    abbrev pub is1 : S
    is1 = (read isbs.is (buffer_size - length b)).0

    pub g : Gives read remaining isbs.is (buffer_size - length b) (buffer_size - length b)
    g = full isbs.is (buffer_size - length b)

    pub kept_whole : (b ++ more) ++ behind ≡ content
    kept_whole =
        append_assoc b more behind
        ∙ ap (λ t. b ++ t) (take-append-drop (buffer_size - length b) (remaining isbs.is))
        ∙ a.all_left

    pub counted_more : (isbs.size + length more) + length (remaining is1) ≡ total
    counted_more = omega (
      arith,
      a.counted,
      ap length g.left,
      length-append more behind,
      ap length (take-append-drop (buffer_size - length b) (remaining isbs.is)),
    )

    pub length-more :
        length more
        ≡ length (remaining isbs.is) - (length (remaining isbs.is) - (buffer_size - length b))
    length-more = length-take (buffer_size - length b) (remaining isbs.is)

    pub refill-more :
        0 < length more
        → refill read (some (c, [])) isbs b
          ≡ ret_more read
              (some (c, []))
              (record { is = is1; left = bytes b; size = isbs.size + length more })
              (b ++ more)
    refill-more h = rw (g.result, g.stored, positive (length more) h) refl
      where
        positive : (n : ℕ) → 0 < n → ltb_ℤ (pos 0) (pos n) ≡ true
        positive n h = ground arith

    module _ (l rest : Bytes) (h : Lacks c l) (fits : length l < buffer_size)
        (e : content ≡ l ++ c ∷ rest) (cut : length b ≤ length l) where
      lengths : length b + length (remaining isbs.is) ≡ length l + suc (length rest)
      lengths = omega (
        arith,
        length-append b (remaining isbs.is),
        ap length (a.all_left ∙ e),
        length-append l (c ∷ rest),
      )

      refill_line : Next (refill read (some (c, [])) isbs b) l rest
      refill_line =
          rw (refill-more (omega (arith, lengths, cut, a.room, length-more)))
            (of_cut (split-Cut c l (b ++ more) behind rest h (kept_whole ∙ e)))
        where
          of_cut :
              Cut c l (b ++ more) behind rest
              → Next
                  (ret_more read
                    (some (c, []))
                    (record { is = is1; left = bytes b; size = isbs.size + length more })
                    (b ++ more))
                  l
                  rest
          of_cut (short s n) =
              absurd (omega (arith, s, lengths, fits, a.room, length-append b more, length-more))
          of_cut (whole r q t) = rw q (record {
            kept = r;
            gives = refl;
            after = record {
              is_left = refl;
              all_left = ap (λ u. r ++ u) g.left ∙ t;
              room = omega (
                arith,
                lengths,
                a.room,
                length-more,
                length-append b more,
                ap length t,
                length-append r behind,
                length-drop (buffer_size - length b) (remaining isbs.is),
              );
              counted = counted_more;
            };
          })

  -- A read that ends well, at a place of the text.
  pub record Reads (isbs : IstreamBstream S) (l content : Bytes) : Type 0 where
    pub to : IstreamBstream S × Block
    pub reads : is_bs_read read isbs (some (c, [])) ≡ some to
    pub next : Next to l content

  pub line_Reads :
      (isbs : IstreamBstream S) (b l rest : Bytes)
      → At isbs b (l ++ c ∷ rest)
      → Lacks c l
      → length l < buffer_size
      → Reads isbs l rest
  unfolding is_bs_read
  line_Reads isbs [] l rest a h fits = record {
    to = refill read (some (c, [])) isbs [];
    reads = ap (read_left read (some (c, [])) isbs) a.is_left;
    next = refill_line isbs [] (l ++ c ∷ rest) a l rest h fits refl (omega arith);
  }
  line_Reads isbs (x ∷ b) l rest a h fits =
      of_cut (split-Cut c l (x ∷ b) (remaining isbs.is) rest h a.all_left)
    where
      of_cut : Cut c l (x ∷ b) (remaining isbs.is) rest → Reads isbs l rest
      of_cut (short s n) = record {
        to = refill read (some (c, [])) isbs (x ∷ b);
        reads =
            ap (read_left read (some (c, [])) isbs) a.is_left
            ∙ ap (λ o. some (or_refill read (some (c, [])) isbs (x ∷ b) o)) n;
        next = refill_line isbs (x ∷ b) (l ++ c ∷ rest) a l rest h fits refl s;
      }
      of_cut (whole r q t) = record {
        to = (record isbs { left = bytes r }, bytes l);
        reads =
            ap (read_left read (some (c, [])) isbs) a.is_left
            ∙ ap (λ o. some (or_refill read (some (c, [])) isbs (x ∷ b) o)) q;
        next = record {
          kept = r;
          gives = refl;
          after = record {
            is_left = refl;
            all_left = t;
            room = omega (
              arith,
              a.room,
              ap length a.all_left,
              ap length t,
              length-append b (remaining isbs.is),
              length-append r (remaining isbs.is),
              length-append l (c ∷ rest),
            );
            counted = a.counted;
          };
        };
      }
