-- ===== src/Io/Output/Contents.antt =====
-- About what the descriptor of a stream of apk-tools/src/io.c has been given.
use mathlib.Core.Path.{subst}
use am_linux_terminal_robot.Common.{
  concat, ℕ, zero, suc, ◌+◌, ◌/◌, ◌<◌, ◌≤◌, ◌≡◌, ◌≢◌, refl, sym, ap, ◌∙◌, ◌⊎◌, inl, inr, true,
  false, some, List, [], ◌∷◌, ◌++◌, Bytes, append_assoc, append-nil, length, length-append,
  length-drop, take, drop, take-append-drop, leb, arith, Bool-cases, ℤ, pos, negsuc, eqb_ℤ, ltb_ℤ,
}
use mathlib.Core.Option.{some-injective}
use am_linux_terminal_robot.Io.Output.{
  FdOstream, buffer_size, safe_write_loop, safe_write, flushed, fdo_flush, buffered, direct,
  write_flushed, fdo_write, writes,
}

eqb-eq : (r : ℤ) (n : ℕ) → eqb_ℤ r (pos n) ≡ true → r ≡ pos n
eqb-eq (pos m) n e = ap pos (ground (arith, e))
eqb-eq (negsuc m) n e = absurd (ground (arith, e))

eqb_pos : (r : ℤ) (n : ℕ) → r ≡ pos n → eqb_ℤ r (pos n) ≡ true
eqb_pos r n e = rw e (ground arith)

negative_differs : (r : ℤ) (n : ℕ) → ltb_ℤ r (pos 0) ≡ true → eqb_ℤ r (pos n) ≡ false
negative_differs (pos m) n e = absurd (ground (arith, e))
negative_differs (negsuc m) n e = ground arith

not_negative : (r : ℤ) (n : ℕ) → ltb_ℤ r (pos 0) ≡ true → r ≢ pos n
not_negative r n e q = absurd (ground (arith, rw q at e))

is_nil : (s : Bytes) → leb (length s) 0 ≡ true → s ≡ []
is_nil [] e = refl
is_nil (c ∷ s) e = absurd (ground (arith, e))

module _ {F : Type 0} (write : F → Bytes → F × ℤ) (contents : F → Bytes) where
  -- What a call of write with some bytes does, if it is no error: it writes a first part of them,
  -- a byte at least.
  pub record Wrote (fd : F) (s : Bytes) : Type 0 where
    pub number : ℕ
    pub result : (write fd s).1 ≡ pos number
    pub some_byte : 0 < number
    pub no_more : number ≤ length s
    pub appended : contents (write fd s).0 ≡ contents fd ++ take number s

  abbrev pub IsWrite : Type 0
  IsWrite =
      (fd : F) (c : ℕ) (s : Bytes) → (ltb_ℤ (write fd (c ∷ s)).1 (pos 0) ≡ true) ⊎ Wrote fd (c ∷ s)

  -- All bytes were written, behind `i` others, or a call failed.
  abbrev WroteAll : F → ℕ → Bytes → F × ℤ → Type 0
  WroteAll fd i s (fd1, r) =
      (ltb_ℤ r (pos 0) ≡ true) ⊎ ((r ≡ pos (i + length s)) × (contents fd1 ≡ contents fd ++ s))

  module _ (w : IsWrite) where
    loop-WroteAll :
        (fuel : ℕ) (fd : F) (i : ℕ) (s : Bytes)
        → length s ≤ fuel
        → WroteAll fd i s (safe_write_loop write fuel fd i s)
    unfolding safe_write_loop
    loop-WroteAll zero fd i [] l = inr (ap pos (omega arith), sym (append-nil (contents fd)))
    loop-WroteAll zero fd i (c ∷ s) l = absurd (omega (arith, l))
    loop-WroteAll (suc fuel) fd i [] l = inr (ap pos (omega arith), sym (append-nil (contents fd)))
    loop-WroteAll (suc fuel) fd i (c ∷ s) l = elim (w fd c s) [
      | inl e ↦ rw e (inl e)
      | inr p ↦
          rw (p.result, no_error p.number, not_null p.number p.some_byte)
            (rest_of p (
              loop-WroteAll fuel (write fd (c ∷ s)).0 (i + p.number) (drop p.number (c ∷ s))
                (omega (arith, length-drop p.number (c ∷ s), p.some_byte, l))))
    ]
      where
        no_error : (n : ℕ) → ltb_ℤ (pos n) (pos 0) ≡ false
        no_error n = ground arith

        not_null : (n : ℕ) → 0 < n → eqb_ℤ (pos n) (pos 0) ≡ false
        not_null n h = ground arith

        rest_of :
            (p : Wrote fd (c ∷ s)) {o : F × ℤ}
            → WroteAll (write fd (c ∷ s)).0 (i + p.number) (drop p.number (c ∷ s)) o
            → WroteAll fd i (c ∷ s) o
        rest_of p (inl e) = inl e
        rest_of p (inr (e, q)) = inr (
          e ∙ ap pos (omega (arith, length-drop p.number (c ∷ s), p.no_more)),
          q
              ∙ ap (λ t. t ++ drop p.number (c ∷ s)) p.appended
              ∙ append_assoc (contents fd) (take p.number (c ∷ s)) (drop p.number (c ∷ s))
              ∙ ap (λ t. contents fd ++ t) (take-append-drop p.number (c ∷ s)),
        )

    safe_write-WroteAll : (fd : F) (s : Bytes) → WroteAll fd 0 s (safe_write write fd s)
    unfolding safe_write
    safe_write-WroteAll fd s = loop-WroteAll (length s) fd 0 s (omega arith)

  all_bytes : {r : ℤ} (n : ℕ) → r ≡ pos (0 + n) → r ≡ pos n
  all_bytes n e = e ∙ ap pos (omega arith)

  -- All that the stream was given, in the descriptor or in the buffer.
  abbrev pub total : FdOstream F → Bytes
  total fos = contents fos.fd ++ fos.buffer

  -- A flush that fails has a negative result.
  pub record Flushed (fos fos1 : FdOstream F) : Type 0 where
    pub whole : contents fos1.fd ≡ total fos
    pub empty : fos1.buffer ≡ []
    pub same_rc : fos1.rc ≡ fos.rc
    pub same_tmp : fos1.tmpfile ≡ fos.tmpfile

  abbrev Flushes : FdOstream F → FdOstream F × ℤ → Type 0
  Flushes fos (fos1, r) = (ltb_ℤ r (pos 0) ≡ true) ⊎ ((r ≡ pos 0) × Flushed fos fos1)

  -- What a write that takes all of its bytes leaves.
  pub record Took (fos : FdOstream F) (s : Bytes) (fos1 : FdOstream F) : Type 0 where
    pub whole : total fos1 ≡ total fos ++ s
    pub fits : length fos1.buffer < buffer_size
    pub same_rc : fos1.rc ≡ fos.rc
    pub same_tmp : fos1.tmpfile ≡ fos.tmpfile

  module _ (w : IsWrite) where
    pub fdo_flush-Flushes : (fos : FdOstream F) → Flushes fos (fdo_flush write fos)
    unfolding fdo_flush
    fdo_flush-Flushes fos = elim (Bool-cases (leb (length fos.buffer) 0)) [
      | inl e ↦
          (let n = is_nil fos.buffer e in
            rw e (
              inr (
                refl,
                record {
                  whole = sym (ap (λ b. contents fos.fd ++ b) n ∙ append-nil (contents fos.fd));
                  empty = n;
                  same_rc = refl;
                  same_tmp = refl;
                },
              )))
      | inr e ↦
          rw e
            (after (safe_write write fos.fd fos.buffer) (safe_write-WroteAll w fos.fd fos.buffer))
    ]
      where
        after : (o : F × ℤ) → WroteAll fos.fd 0 fos.buffer o → Flushes fos (flushed write fos o)
        after (fd, r) (inl e) = rw (negative_differs r (length fos.buffer) e) (inl e)
        after (fd, r) (inr (e, q)) =
            rw (eqb_pos r (length fos.buffer) (all_bytes (length fos.buffer) e))
              (inr (refl, record { whole = q; empty = refl; same_rc = refl; same_tmp = refl }))

    abbrev TookIf : FdOstream F → Bytes → FdOstream F × ℤ → Type 0
    TookIf fos s (fos1, r) = r ≡ pos (length s) → Took fos s fos1

    direct-TookIf :
        (fos fos1 : FdOstream F) (s : Bytes) (o : F × ℤ)
        → Flushed fos fos1
        → WroteAll fos1.fd 0 s o
        → TookIf fos s (direct write fos1 s o)
    direct-TookIf fos fos1 s (fd, r) f (inl e) =
        rw (negative_differs r (length s) e) (λ q. absurd (not_negative r (length s) e q))
    direct-TookIf fos fos1 s (fd, r) f (inr (e, q)) =
        rw (eqb_pos r (length s) (all_bytes (length s) e)) (λ _. record {
          whole =
              ap (λ b. contents fd ++ b) f.empty
              ∙ append-nil (contents fd)
              ∙ q
              ∙ ap (λ t. t ++ s) f.whole;
          fits = subst (λ b. length b < buffer_size) (sym f.empty) (omega arith);
          same_rc = f.same_rc;
          same_tmp = f.same_tmp;
        })

    buffered-Took :
        (fos : FdOstream F) (s : Bytes)
        → length s + length fos.buffer < buffer_size
        → Took fos s (buffered write fos s).0
    buffered-Took fos s l = record {
      whole = sym (append_assoc (contents fos.fd) fos.buffer s);
      fits = omega (arith, l, length-append fos.buffer s);
      same_rc = refl;
      same_tmp = refl;
    }

    flushed-TookIf :
        (fos : FdOstream F) (s : Bytes) (o : FdOstream F × ℤ)
        → Flushes fos o
        → TookIf fos s (write_flushed write s o)
    flushed-TookIf fos s (fos1, r) (inl e) =
        rw (negative_differs r 0 e) (λ q. absurd (not_negative r (length s) e q))
    flushed-TookIf fos s (fos1, r) (inr (z, f)) =
        rw z (elim (Bool-cases (leb (buffer_size / 2) (length s))) [
          | inl e ↦ rw e (
              direct-TookIf fos fos1 s (safe_write write fos1.fd s) f
                (safe_write-WroteAll w fos1.fd s))
          | inr e ↦ rw e (λ _. then_took (buffered-Took fos1 s (room e)))
        ])
      where
        room :
            leb (buffer_size / 2) (length s) ≡ false → length s + length fos1.buffer < buffer_size
        room e = ground (arith, e, ap length f.empty)

        then_took : {fos2 : FdOstream F} → Took fos1 s fos2 → Took fos s fos2
        then_took t = record {
          whole =
              t.whole
              ∙ ap (λ t. t ++ s)
                  (ap (λ b. contents fos1.fd ++ b) f.empty
                    ∙ append-nil (contents fos1.fd)
                    ∙ f.whole);
          fits = t.fits;
          same_rc = t.same_rc ∙ f.same_rc;
          same_tmp = t.same_tmp ∙ f.same_tmp;
        }

    fdo_write-TookIf : (fos : FdOstream F) (s : Bytes) → TookIf fos s (fdo_write write fos s)
    unfolding fdo_write
    fdo_write-TookIf fos s = elim (Bool-cases (leb buffer_size (length s + length fos.buffer))) [
      | inl e ↦ rw e (flushed-TookIf fos s (fdo_flush write fos) (fdo_flush-Flushes fos))
      | inr e ↦ rw e (λ _. buffered-Took fos s (ground (arith, e)))
    ]

    -- Writes that all take their bytes, over a descriptor on which a call of write with some bytes
    -- fails or takes a byte at least, hand over all of these bytes in their order, in the descriptor
    -- or the buffer, leave room in the buffer, and note no error.
    pub writes-Took :
        (ss : List Bytes) (fos fos1 : FdOstream F)
        → length fos.buffer < buffer_size
        → writes write ss fos ≡ some fos1
        → Took fos (concat ss) fos1
    unfolding writes concat
    writes-Took [] fos fos1 l e =
        subst (Took fos []) (some-injective fos fos1 e) (record {
          whole = sym (append-nil (total fos));
          fits = l;
          same_rc = refl;
          same_tmp = refl;
        })
    writes-Took (s ∷ ss) fos fos1 l e =
        elim (Bool-cases (eqb_ℤ (fdo_write write fos s).1 (pos (length s)))) [
          | inl r ↦
              (let t = fdo_write-TookIf fos s (eqb-eq (fdo_write write fos s).1 (length s) r) in
                t_then t (writes-Took ss (fdo_write write fos s).0 fos1 t.fits (rw r at e)))
          | inr r ↦ absurd (cc (rw r at e))
        ]
      where
        t_then :
            {fos2 : FdOstream F}
            → Took fos s fos2
            → Took fos2 (concat ss) fos1
            → Took fos (s ++ concat ss) fos1
        t_then t u = record {
          whole =
              u.whole ∙ ap (λ b. b ++ concat ss) t.whole ∙ append_assoc (total fos) s (concat ss);
          fits = u.fits;
          same_rc = u.same_rc ∙ t.same_rc;
          same_tmp = u.same_tmp ∙ t.same_tmp;
        }
