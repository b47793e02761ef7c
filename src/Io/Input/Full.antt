-- ===== src/Io/Input/Full.antt =====
-- About fdi_read of apk-tools/src/io.c over a descriptor without errors.
use am_linux_terminal_robot.Common.{
  zero_of_eqb, ℕ, zero, suc, ◌+◌, ◌-◌, ◌<◌, ◌≤◌, ◌≡◌, ◌⊎◌, refl, sym, ap, ◌∙◌, Bool, false, ◌&&◌,
  [], ◌∷◌, ◌++◌, append_assoc, append-nil, Bytes, leb, length, length-take, take, drop, arith,
  Bool-cases, inl, inr, ℤ, pos, eqb_ℤ, ltb_ℤ,
}
use am_linux_terminal_robot.Io.Input.{fdi_loop, fdi_end, fdi_read}

-- A read of a stream or a descriptor gives `number` of the bytes that it has left, and moves behind
-- them.
pub record Gives {S : Type 0} (read : S → ℕ → S × ℤ × Bytes) (remaining : S → Bytes) (s : S)
    (size number : ℕ) : Type 0 where
  pub result : (read s size).1 ≡ pos (length (take number (remaining s)))
  pub stored : (read s size).2 ≡ take number (remaining s)
  pub left : remaining (read s size).0 ≡ drop number (remaining s)

-- A stream whose reads give as many bytes as are asked for, but at the end of the stream.
abbrev pub IsFull : {S : Type 0} → (S → ℕ → S × ℤ × Bytes) → (S → Bytes) → Type 0
IsFull {S} read remaining = (s : S) (size : ℕ) → Gives read remaining s size size

-- What the system call does with a descriptor without errors: it gives a byte at least of those asked
-- for, but at the end.
pub record SomeBytes {F : Type 0} (read : F → ℕ → F × ℤ × Bytes) (remaining : F → Bytes) (fd : F)
    (size : ℕ) : Type 0 where
  pub number : ℕ
  pub asked : number ≤ size
  pub there : number ≤ length (remaining fd)
  pub some_byte : (0 < number) ⊎ (remaining fd ≡ [])
  pub gives : Gives read remaining fd size number

abbrev pub IsRead : {F : Type 0} → (F → ℕ → F × ℤ × Bytes) → (F → Bytes) → Type 0
IsRead {F} read remaining = (fd : F) (size : ℕ) → 0 < size → SomeBytes read remaining fd size

pub take_more : (n m k : ℕ) (s : Bytes) → m ≡ n + k → take n s ++ take k (drop n s) ≡ take m s
take_more zero m k s e = ap (λ i. take i s) (omega (arith, e))
take_more (suc n) zero k s e = absurd (omega (arith, e))
take_more (suc n) (suc m) zero [] e = refl
take_more (suc n) (suc m) (suc k) [] e = refl
take_more (suc n) (suc m) k (x ∷ s) e = ap (λ t. x ∷ t) (take_more n m k s (omega (arith, e)))

pub drop_more : (n m k : ℕ) (s : Bytes) → m ≡ n + k → drop k (drop n s) ≡ drop m s
drop_more zero m k s e = ap (λ i. drop i s) (omega (arith, e))
drop_more (suc n) zero k s e = absurd (omega (arith, e))
drop_more (suc n) (suc m) zero [] e = refl
drop_more (suc n) (suc m) (suc k) [] e = refl
drop_more (suc n) (suc m) k (x ∷ s) e = drop_more n m k s (omega (arith, e))

length-take_below : (n : ℕ) (s : Bytes) → n ≤ length s → length (take n s) ≡ n
length-take_below n s l = omega (arith, length-take n s, l)

module _ {F : Type 0} (read : F → ℕ → F × ℤ × Bytes) (lseek : F → ℕ → F × ℤ) (status : ℤ)
    (remaining : F → Bytes) (w : IsRead read remaining) where
  -- What is read behind the bytes in `done`.
  record Reads (done : Bytes) (fd : F) (size : ℕ) (r : F × ℤ × Bytes) : Type 0 where
    pub result : r.1 ≡ pos (length (done ++ take size (remaining fd)))
    pub stored : r.2 ≡ done ++ take size (remaining fd)
    pub left : remaining r.0 ≡ drop size (remaining fd)

  no_error : (n : ℕ) → ltb_ℤ (pos n) (pos 0) ≡ false
  no_error n = ground arith

  not_null : (n : ℕ) → 0 < n → eqb_ℤ (pos n) (pos 0) ≡ false
  not_null n h = ground arith

  none_left :
      {size : ℕ} {done : Bytes} {fd : F}
      → size ≡ 0
      → Reads done fd size (fd, pos (length done), done)
  none_left {size} {done} {fd} e = rw e (record {
    result = ap (λ t. pos (length t)) (sym (append-nil done));
    stored = sym (append-nil done);
    left = refl;
  })

  take_nil : (n : ℕ) → take {A = ℕ} n [] ≡ []
  take_nil zero = refl
  take_nil (suc n) = refl

  drop_nil : (n : ℕ) → drop {A = ℕ} n [] ≡ []
  drop_nil zero = refl
  drop_nil (suc n) = refl

  at_end :
      {size : ℕ} {done : Bytes} {fd : F} (b : SomeBytes read remaining fd size)
      → remaining fd ≡ []
      → Reads done fd size ((read fd size).0, pos (length done), done)
  at_end {size} {done} {fd} b e = record {
    result = ap (λ t. pos (length t)) (sym nothing);
    stored = sym nothing;
    left =
        b.gives.left
        ∙ ap (drop b.number) e
        ∙ drop_nil b.number
        ∙ sym (ap (drop size) e ∙ drop_nil size);
  }
    where
      nothing : done ++ take size (remaining fd) ≡ done
      nothing =
          ap (λ t. done ++ take size t) e ∙ ap (λ t. done ++ t) (take_nil size) ∙ append-nil done

  behind :
      {size : ℕ} {done : Bytes} {fd : F} {r : F × ℤ × Bytes} (b : SomeBytes read remaining fd size)
      → Reads (done ++ take b.number (remaining fd)) (read fd size).0 (size - b.number) r
      → Reads done fd size r
  behind {size} {done} {fd} {r} b k = record {
    result = k.result ∙ ap (λ t. pos (length t)) whole;
    stored = k.stored ∙ whole;
    left =
        k.left
        ∙ ap (drop (size - b.number)) b.gives.left
        ∙ drop_more b.number size (size - b.number) (remaining fd) (omega (arith, b.asked));
  }
    where
      whole :
          (done ++ take b.number (remaining fd))
            ++ take (size - b.number) (remaining (read fd size).0)
          ≡ done ++ take size (remaining fd)
      whole =
          append_assoc done (take b.number (remaining fd)) _
          ∙ ap (λ t. done ++ (take b.number (remaining fd) ++ take (size - b.number) t))
              b.gives.left
          ∙ ap (λ t. done ++ t)
              (take_more b.number size (size - b.number) (remaining fd) (omega (arith, b.asked)))

  number_zero :
      {size : ℕ} {fd : F} (b : SomeBytes read remaining fd size) → remaining fd ≡ [] → b.number ≡ 0
  number_zero b e = omega (arith, b.there, ap length e)

  -- A child that ends well does not change the result of the loop.
  fdi_end_lem :
      (child : Bool) (r : F × ℤ × Bytes)
      → status ≡ pos 0
      → let e = fdi_end read lseek status child r in (e.0.fd ≡ r.0) × (e.1 ≡ r.1) × (e.2 ≡ r.2)
  fdi_end_lem child (fd, r, bytes) well = elim (Bool-cases (eqb_ℤ r (pos 0) && child)) [
    | inl e ↦ rw e (refl, well ∙ sym (zero_of_eqb r (ground (arith, e))), refl)
    | inr e ↦ rw e (refl, refl, refl)
  ]

  fdi_loop-Reads :
      (fuel : ℕ) (fd : F) (size : ℕ) (done : Bytes)
      → size ≤ fuel
      → Reads done fd size (fdi_loop read lseek status fuel fd size done)
  unfolding fdi_loop
  fdi_loop-Reads zero fd size done l = none_left (omega (arith, l))
  fdi_loop-Reads (suc fuel) fd size done l = elim (Bool-cases (leb size 0)) [
    | inl e ↦ rw e (none_left (ground (arith, e)))
    | inr e ↦
        (let b = w fd size (ground (arith, e)) in
          rw (e, b.gives.result, length-take_below b.number (remaining fd) b.there, b.gives.stored)
            (elim b.some_byte [
              | inl h ↦
                  rw (no_error b.number, not_null b.number h)
                    (behind b (
                      fdi_loop-Reads fuel (read fd size).0 (size - b.number)
                        (done ++ take b.number (remaining fd)) (omega (arith, b.asked, h, l))))
              | inr nil ↦ rw (number_zero b nil) (at_end b nil)
            ]))
  ]

  -- fdi_read makes a stream whose reads give all that is asked for, but at the end, of a descriptor
  -- whose reads give a byte at least of what is asked for, but at the end; where there is a child,
  -- it is taken to end well.
  pub fdi_read-IsFull :
      status ≡ pos 0 → IsFull (fdi_read read lseek status) (λ fis. remaining fis.fd)
  unfolding fdi_read
  fdi_read-IsFull well fis size =
      let k = fdi_loop-Reads size fis.fd size [] (omega arith) in
      let e = fdi_end_lem fis.child (fdi_loop read lseek status size fis.fd size []) well in
      record { result = e.1 ∙ k.result; stored = e.2 ∙ k.stored; left = ap remaining e.0 ∙ k.left }
