-- ===== src/Package/Signature/Block/Safety.antt =====
-- About `apk_sign_ctx_mpart_cb` of apk-tools/src/package.c, and what it marks as verified.
use am_linux_terminal_robot.Common.{◌≡◌, Bool, true, false, Bytes, ◌⊎◌, ℕ, arith}
use am_linux_terminal_robot.Package.Signature.{
  Crypto, SignCtx, ret, Part, part_end, sign_verify_identity, verifies_key, feed, trusts,
}
use am_linux_terminal_robot.Package.Signature.Block.{
  key_verifies, identity_matches, data_matches, check_data, check_control, close_block, mpart_cb,
}

module _ {Key : Type 0} (crypto : Crypto Key) (untrusted : Bool) where
  -- The context behind the last bytes of a block.
  abbrev pub at_end : SignCtx Key → Bytes → SignCtx Key
  at_end ctx s = let c = feed crypto ctx s in record c { data_started = true }

  -- The control block is marked as verified only where the key verifies the signature over what the
  -- digest was fed, or the digest is the identity that is asked for.
  pub control_verified_sound :
      (ctx : SignCtx Key) (part : Part) (s : Bytes)
      → ctx.control_verified ≡ false
      → (mpart_cb crypto untrusted ctx part s).0.control_verified ≡ true
      → ((verifies_key crypto ctx ≡ true) × (key_verifies crypto (at_end ctx s) ≡ true))
        ⊎ ((ctx.action ≡ sign_verify_identity) × (identity_matches crypto (at_end ctx s) ≡ true))
  unfolding mpart_cb close_block check_data check_control trusts
  control_verified_sound ctx part s h e = ground arith

  -- The data is marked as verified only where its digest is the checksum that the control block
  -- gives, or where the stream ends with a verified control block that gives none.
  pub data_verified_sound :
      (ctx : SignCtx Key) (part : Part) (s : Bytes)
      → ctx.data_verified ≡ false
      → (mpart_cb crypto untrusted ctx part s).0.data_verified ≡ true
      → ((ctx.has_data_checksum ≡ true) × (data_matches crypto (at_end ctx s) ≡ true))
        ⊎ ((ctx.has_data_checksum ≡ false)
            × (part ≡ part_end)
            × ((mpart_cb crypto untrusted ctx part s).0.control_verified ≡ true))
  unfolding mpart_cb close_block check_data check_control trusts
  data_verified_sound ctx part s h e = ground arith

  -- A stream whose data has started and that ends with no error, while a key or an identity is
  -- asked for and packages that are not trusted are refused, has its control block and its data
  -- verified.
  pub end_verifies_control :
      (ctx : SignCtx Key) (s : Bytes) {n : ℕ}
      → untrusted ≡ false
      → ctx.data_started ≡ true
      → (mpart_cb crypto untrusted ctx part_end s).1 ≡ ret n
      → (verifies_key crypto ctx ≡ true) ⊎ (ctx.action ≡ sign_verify_identity)
      → ((mpart_cb crypto untrusted ctx part_end s).0.control_verified ≡ true)
        × ((mpart_cb crypto untrusted ctx part_end s).0.data_verified ≡ true)
  unfolding mpart_cb close_block check_data check_control trusts
  end_verifies_control ctx s h d e v = ground arith
