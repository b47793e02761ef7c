-- ===== src/Package/Signature/Block.antt =====
-- apk-tools/src/package.c, lines 533 to 629: apk_sign_ctx_mpart_cb, which is called with the parts
-- of a package's compressed stream.
pub mod Safety
pub mod Runs
use am_linux_terminal_robot.Common.{
  ℕ, ◌%◌, Bool, true, ◌&&◌, ◌||◌, not, ◌++◌, Bytes, ◌==◌, if◌then◌else◌, length, take, drop, pos,
  eqb_ℤ, bytes_eq,
}
use am_linux_terminal_robot.Package.Signature.{
  Crypto, SignCtx, Digest, Returns, ret, fails, enokey, ekeyrejected, ecanceled, Part, is_data,
  is_boundary, is_end, sign_verify_identity, sign_generate, sign_generate_v1,
  sign_verify_and_generate, reset_digest, feed, verifies_key, trusts,
}

module _ {Key : Type 0} (crypto : Crypto Key) where
  -- EVP_DigestFinal_ex
  abbrev pub final : Digest → Bytes
  final d = crypto.digest d.kind d.fed

  abbrev pub size_of : Digest → ℕ
  size_of d = crypto.md_size d.kind

  -- memcmp(a, b, n) == 0
  abbrev pub same_bytes : ℕ → Bytes → Bytes → Bool
  same_bytes n a b = bytes_eq (take n a) (take n b)

  abbrev pub data_matches : SignCtx Key → Bool
  data_matches ctx =
      not (size_of ctx.mdctx == 0)
      && same_bytes (size_of ctx.mdctx) (final ctx.mdctx) ctx.data_checksum

  abbrev pub identity_matches : SignCtx Key → Bool
  identity_matches ctx = same_bytes ctx.identity.type (final ctx.mdctx) ctx.identity.data_bytes

  abbrev pub key_verifies : SignCtx Key → Bool
  key_verifies ctx =
      eqb_ℤ (crypto.verify_final ctx.mdctx.kind ctx.mdctx.fed ctx.signature_data ctx.pkey) (pos 1)

  -- The end of the data, whose checksum stands in the control block.
  unfoldable pub check_data : Bool → SignCtx Key → SignCtx Key × Returns
  check_data untrusted ctx =
      if not (data_matches ctx)
      then (ctx, fails ekeyrejected)
      else if not untrusted && not ctx.control_verified
      then (record ctx { data_verified = true }, fails enokey)
      else (record ctx { data_verified = true }, ret 0)

  abbrev pub verified : Part → SignCtx Key → SignCtx Key
  verified part ctx =
      if not ctx.has_data_checksum && is_end part
      then record ctx { control_verified = true; data_verified = true }
      else record ctx { control_verified = true }

  -- The digest becomes the package's identity; `type` has eight bits.
  abbrev pub identified : SignCtx Key → SignCtx Key
  identified ctx = record ctx {
    identity = record {
      data_bytes = final ctx.mdctx ++ drop (length (final ctx.mdctx)) ctx.identity.data_bytes;
      type = size_of ctx.mdctx % 256;
    };
  }

  abbrev generates : SignCtx Key → Bool
  generates ctx = ctx.action == sign_generate || ctx.action == sign_generate_v1

  -- The `switch` on the action, up to the reset of the digest.
  unfoldable pub check_control : Part → SignCtx Key → SignCtx Key × Returns
  check_control part ctx =
      if verifies_key crypto ctx
      then (if not (key_verifies ctx)
          then (ctx, fails ekeyrejected)
          else if ctx.action == sign_verify_and_generate
          then (reset_digest crypto (identified (verified part ctx)), ret 0)
          else (reset_digest crypto (verified part ctx), ret 0))
      else if ctx.action == sign_verify_identity
      then (if not (identity_matches ctx)
          then (ctx, fails ekeyrejected)
          else (reset_digest crypto (verified part ctx), ret 0))
      else if generates ctx
      then (if ctx.action == sign_generate && ctx.has_data_checksum
          then (identified ctx, fails ecanceled)
          else (reset_digest crypto (identified ctx), ret 0))
      else (reset_digest crypto ctx, ret 0)

  -- Behind the signatures; `end_of_control` is that the data had not started.
  unfoldable pub close_block : Bool → Bool → Part → SignCtx Key → SignCtx Key × Returns
  close_block untrusted end_of_control part ctx =
      if ctx.has_data_checksum && not end_of_control
      then check_data untrusted ctx
      else if trusts crypto untrusted ctx
      then check_control part ctx
      else (ctx, fails enokey)

  -- apk_sign_ctx_mpart_cb
  unfoldable pub mpart_cb : Bool → SignCtx Key → Part → Bytes → SignCtx Key × Returns
  mpart_cb untrusted ctx part s =
      if is_data part || is_boundary part && ctx.data_started
      then (feed crypto ctx s, ret 0)
      else if not ctx.control_started
      then (if is_end part then (ctx, fails ekeyrejected) else (reset_digest crypto ctx, ret 0))
      else if not ctx.has_data_checksum && not ctx.data_started && not (is_end part)
      then (feed crypto (record ctx { data_started = true }) s, ret 0)
      else close_block untrusted (not ctx.data_started) part
          (feed crypto (record ctx { data_started = true }) s)
