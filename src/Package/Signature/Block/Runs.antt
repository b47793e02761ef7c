-- ===== src/Package/Signature/Block/Runs.antt =====
-- The calls that a package's signature context gets while the package is read, in any order.
use mathlib.Core.Path.{subst}
use mathlib.Core.Option.{some-injective}
use am_linux_terminal_robot.Common.{
  ℕ, ◌≡◌, Bool, true, false, Option, none, some, Bytes, ℤ, arith, [], ◌∷◌, codes, not, ◌&&◌,
  Bool-cases, inl, inr, eqb_ℤ, pos, ◌==◌,
}
use am_linux_terminal_robot.Blob.Scan.{compare}
use am_linux_terminal_robot.Blob.Pull.{Pulled}
use am_linux_terminal_robot.Blob.Checksum.{Checksum}
use am_linux_terminal_robot.Package.Signature.{
  Crypto, SignCtx, ret, Part, sign_init, process_file, parse_pkginfo_line, pkginfo_field, stored,
  trusts,
}
use am_linux_terminal_robot.Package.Signature.Block.{
  check_data, check_control, close_block, mpart_cb,
}

module _ {Key : Type 0} (crypto : Crypto Key) (untrusted : Bool) where
  -- One call: of apk_sign_ctx_process_file, whatever it returns, of apk_sign_ctx_parse_pkginfo_line,
  -- or of apk_sign_ctx_mpart_cb, with no error.
  pub data Step : SignCtx Key → SignCtx Key → Type 0 where
    file :
        (ctx : SignCtx Key) (name : Bytes) (blob : Option Bytes)
        → Step ctx (process_file crypto untrusted ctx name blob).0
    line :
        (ctx ctx' : SignCtx Key) (s : Bytes)
        → parse_pkginfo_line crypto ctx s ≡ some ctx'
        → Step ctx ctx'
    block :
        (ctx : SignCtx Key) (part : Part) (s : Bytes) (n : ℕ)
        → (mpart_cb crypto untrusted ctx part s).1 ≡ ret n
        → Step ctx (mpart_cb crypto untrusted ctx part s).0

  -- The contexts that such calls lead to from a new one.
  pub data Reachable : SignCtx Key → Type 0 where
    begins :
        (action : ℕ) (identity : Checksum) (keys_fd : ℤ)
        → Reachable (sign_init crypto action identity keys_fd)
    goes_on : (ctx ctx' : SignCtx Key) → Reachable ctx → Step ctx ctx' → Reachable ctx'

  -- The data starts behind the control block, and is verified only behind a verified control block.
  pub record IsConsistent (ctx : SignCtx Key) : Type 0 where
    pub started : ctx.data_started ≡ true → ctx.control_started ≡ true
    pub verified_started : ctx.data_verified ≡ true → ctx.data_started ≡ true
    pub verified_control : ctx.data_verified ≡ true → ctx.control_verified ≡ true

  begins-IsConsistent :
      (action : ℕ) (identity : Checksum) (keys_fd : ℤ)
      → IsConsistent (sign_init crypto action identity keys_fd)
  unfolding sign_init
  begins-IsConsistent action identity keys_fd = record {
    started = ground arith;
    verified_started = ground arith;
    verified_control = ground arith;
  }

  file-IsConsistent :
      (ctx : SignCtx Key) (name : Bytes) (blob : Option Bytes)
      → IsConsistent ctx
      → IsConsistent (process_file crypto untrusted ctx name blob).0
  unfolding process_file
  file-IsConsistent ctx name blob i = record {
    started = ground (arith, i.started);
    verified_started = ground (arith, i.verified_started);
    verified_control = ground (arith, i.verified_control);
  }

  block-IsConsistent :
      (ctx : SignCtx Key) (part : Part) (s : Bytes) {n : ℕ}
      → untrusted ≡ false
      → (mpart_cb crypto untrusted ctx part s).1 ≡ ret n
      → IsConsistent ctx
      → IsConsistent (mpart_cb crypto untrusted ctx part s).0
  unfolding mpart_cb close_block check_data check_control trusts
  block-IsConsistent ctx part s u e i = record {
    started = ground (arith, i.started);
    verified_started = ground (arith, i.verified_started);
    verified_control = ground (arith, i.verified_control);
  }

  stored-IsConsistent :
      (ctx ctx' : SignCtx Key) (p : Pulled)
      → stored crypto ctx p ≡ some ctx'
      → IsConsistent ctx
      → IsConsistent ctx'
  stored-IsConsistent ctx ctx' none e i = cc
  stored-IsConsistent ctx ctx' (some (to, rest)) e i =
      subst IsConsistent (some-injective _ ctx' e) (record {
        started = i.started;
        verified_started = i.verified_started;
        verified_control = i.verified_control;
      })

  field-IsConsistent :
      (ctx ctx' : SignCtx Key) (o : Option (Bytes × Bytes))
      → pkginfo_field crypto ctx o ≡ some ctx'
      → IsConsistent ctx
      → IsConsistent ctx'
  field-IsConsistent ctx ctx' none e i = subst IsConsistent (some-injective _ ctx' e) i
  field-IsConsistent ctx ctx' (some (l, r)) e i =
      elim (Bool-cases (not ctx.data_started && eqb_ℤ (compare (codes "datahash") l) (pos 0))) [
        | inl t ↦ stored-IsConsistent ctx ctx' _ (rw t at e) i
        | inr t ↦ subst IsConsistent (some-injective _ ctx' (rw t at e)) i
      ]

  line-IsConsistent :
      (ctx ctx' : SignCtx Key) (s : Bytes)
      → parse_pkginfo_line crypto ctx s ≡ some ctx'
      → IsConsistent ctx
      → IsConsistent ctx'
  unfolding parse_pkginfo_line
  line-IsConsistent ctx ctx' [] e i = subst IsConsistent (some-injective _ ctx' e) i
  line-IsConsistent ctx ctx' (c ∷ s) e i = elim (Bool-cases (c == b'#')) [
    | inl t ↦ subst IsConsistent (some-injective _ ctx' (rw t at e)) i
    | inr t ↦ field-IsConsistent ctx ctx' _ (rw t at e) i
  ]

  -- While packages that are not trusted are refused, every context that is reached from a new one,
  -- by calls of apk_sign_ctx_process_file with any result, calls of apk_sign_ctx_parse_pkginfo_line
  -- and calls of apk_sign_ctx_mpart_cb that return no error, has its data behind the control block,
  -- and the data is verified only behind a verified control block.
  pub Reachable-IsConsistent :
      (ctx : SignCtx Key) → untrusted ≡ false → Reachable ctx → IsConsistent ctx
  Reachable-IsConsistent _ u (begins action identity keys_fd) =
      begins-IsConsistent action identity keys_fd
  Reachable-IsConsistent _ u (goes_on ctx _ r (file _ name blob)) =
      file-IsConsistent ctx name blob (Reachable-IsConsistent ctx u r)
  Reachable-IsConsistent _ u (goes_on ctx ctx' r (line _ _ s e)) =
      line-IsConsistent ctx ctx' s e (Reachable-IsConsistent ctx u r)
  Reachable-IsConsistent _ u (goes_on ctx _ r (block _ part s n e)) =
      block-IsConsistent ctx part s u e (Reachable-IsConsistent ctx u r)
