-- ===== src/Io/Lines/Tee.antt =====
-- About tee_read of apk-tools/src/io.c for a client that reads a stream to its end.
use mathlib.Core.Option.{some-injective}
use am_linux_terminal_robot.Common.{
  ℕ, zero, suc, ◌+◌, ◌≡◌, refl, sym, ap, ◌∙◌, Option, none, some, List, [], ◌∷◌, ◌++◌, append_assoc,
  append-nil, Bytes, concat, length, length-append, arith, ℤ, pos,
}
use am_linux_terminal_robot.Io.Lines.{
  Token, Block, bytes, no_bytes, TeeBstream, tee_wrote, tee_block, tee_read, read_all, read_on,
  with_first,
}

module _ {B F : Type 0} (read : B → Token → Option (B × Block)) (write : F → Bytes → F × ℤ)
    (contents : F → Bytes) where
  -- A write takes all of its bytes.
  pub record Takes (fd : F) (b : Bytes) : Type 0 where
    pub result : (write fd b).1 ≡ pos (length b)
    pub appended : contents (write fd b).0 ≡ contents fd ++ b

  abbrev pub start : B → F → ℕ → TeeBstream B F
  start bs fd size = record { inner_bs = bs; fd = fd; size = pos size }

  -- The client gets the blobs of the inner stream, which are also written one behind the other.
  pub record Tees (fd : F) (size : ℕ) (bs : B) (bb : List Bytes)
      (o : Option (TeeBstream B F × List Bytes)) : Type 0 where
    pub to : TeeBstream B F
    pub reads : o ≡ some (to, bb)
    pub inner : to.inner_bs ≡ bs
    pub copied : contents to.fd ≡ contents fd ++ concat bb
    pub counted : to.size ≡ pos (size + length (concat bb))

  module _ (takes : (fd : F) (b : Bytes) → Takes fd b) where
    -- The inner stream has given a blob and is read on.
    with_blob :
        {inner end end1 : B} {b : Bytes} {bb bb1 : List Bytes} {fd : F} {size : ℕ}
        (o : TeeBstream B F → Option (TeeBstream B F × List Bytes))
        → with_first read b (some (end1, bb1)) ≡ some (end, bb)
        → Tees
            (write fd b).0
            (size + length b)
            end1
            bb1
            (o (start inner (write fd b).0 (size + length b)))
        → Tees fd size end bb (
            with_first
              (tee_read read write)
              b
              (o (tee_wrote read write inner b (pos size) (write fd b)).0))
    unfolding concat
    with_blob {inner} {end} {end1} {b} {bb} {bb1} {fd} {size} o e k =
        let p = some-injective (end1, b ∷ bb1) (end, bb) e in
        let w = takes fd b in
        rw (w.result, sym (ap (λ x. x.0) p), sym (ap (λ x. x.1) p))
          (record {
            to = k.to;
            reads = ap (with_first (tee_read read write) b) k.reads;
            inner = k.inner;
            copied =
                k.copied
                ∙ ap (λ s. s ++ concat bb1) w.appended
                ∙ append_assoc (contents fd) b (concat bb1);
            counted = k.counted ∙ ap pos (omega (arith, length-append b (concat bb1)));
          })

    step :
        (bs : B) {end : B} {bb : List Bytes} {fd : F} {size : ℕ}
        (next : B → Option (B × List Bytes))
        (tee_next : TeeBstream B F → Option (TeeBstream B F × List Bytes))
        → ((bs1 end1 : B) (bb1 : List Bytes) (fd1 : F) (size1 : ℕ)
            → next bs1 ≡ some (end1, bb1)
            → Tees fd1 size1 end1 bb1 (tee_next (start bs1 fd1 size1)))
        → (o : Option (B × Block)) → read_on read next o ≡ some (end, bb)
        → Tees fd size end bb
            (read_on (tee_read read write) tee_next (tee_block read write (start bs fd size) o))
    unfolding concat
    step bs next tee_next on none e = absurd (cc e)
    step bs {end} {bb} {fd} {size} next tee_next on (some (inner, no_bytes n)) e =
        let p = some-injective (inner, []) (end, bb) e in
        rw (sym (ap (λ x. x.1) p)) (record {
          to = start inner fd size;
          reads = refl;
          inner = ap (λ x. x.0) p;
          copied = sym (append-nil (contents fd));
          counted = ap pos (omega arith);
        })
    step bs {end} {bb} {fd} {size} next tee_next on (some (inner, bytes b)) e =
        blob (next inner) refl e
      where
        blob :
            (o : Option (B × List Bytes))
            → next inner ≡ o
            → with_first read b o ≡ some (end, bb)
            → Tees fd size end bb (
                with_first
                  (tee_read read write)
                  b
                  (tee_next (tee_wrote read write inner b (pos size) (write fd b)).0))
        blob none q h = absurd (cc h)
        blob (some (end1, bb1)) q h =
            with_blob tee_next h (on inner end1 bb1 (write fd b).0 (size + length b) q)

    -- A client that reads a stream through tee_read to its end gets the same blobs as without it, and
    -- the descriptor and the size noted grow by all of their bytes, where each write takes all of its
    -- bytes.
    pub read_all-tee_read :
        (fuel : ℕ) (bs end : B) (bb : List Bytes) (fd : F) (size : ℕ) (token : Token)
        → read_all read fuel bs token ≡ some (end, bb)
        → Tees fd size end bb (read_all (tee_read read write) fuel (start bs fd size) token)
    unfolding read_all tee_read concat
    read_all-tee_read zero bs end bb fd size token e = absurd (cc e)
    read_all-tee_read (suc fuel) bs end bb fd size token e =
        step bs (λ bs1. read_all read fuel bs1 token)
          (λ t. read_all (tee_read read write) fuel t token)
          (λ bs1 end1 bb1 fd1 size1. read_all-tee_read fuel bs1 end1 bb1 fd1 size1 token)
          (read bs token) e
