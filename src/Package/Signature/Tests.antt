-- ===== src/Package/Signature/Tests.antt =====
-- The theorems on a package's signature context at concrete inputs.
use am_linux_terminal_robot.Common.{
  ◌≡◌, refl, Bool, true, false, Option, some, none, ◌⊎◌, inl, Bytes, codes, ◌++◌, pos, neg, take, ℤ,
  starts_with,
}
use am_linux_terminal_robot.Blob.Checksum.{Checksum}
use am_linux_terminal_robot.Package.Signature.{
  Crypto, SignCtx, part_end, sign_verify, sign_verify_identity, nulls, sign_init, process_file,
  verifies_key, trusts, has_slash, is_data_name,
}
use am_linux_terminal_robot.Package.Signature.Block.{
  key_verifies, identity_matches, data_matches, check_control, close_block, mpart_cb,
}
use am_linux_terminal_robot.Package.Signature.Block.Safety.{
  at_end, control_verified_sound, data_verified_sound, end_verifies_control,
}
use am_linux_terminal_robot.Package.Signature.Block.Runs.{
  Reachable, begins, goes_on, file, IsConsistent, Reachable-IsConsistent,
}

-- Digests of twenty bytes; the one key verifies every signature that was read.
abbrev verifies : Option Bytes → Option Bool → ℤ
verifies none key = neg 1
verifies (some s) none = neg 1
verifies (some s) (some key) = pos 1

abbrev crypto : Crypto Bool
crypto = record {
  md_size = λ m. 20;
  digest = λ m s. take 20 (s ++ nulls 20);
  verify_final = λ m s sig key. verifies sig key;
  open_key = λ name. some (some true);
}

abbrev no_identity : Checksum
no_identity = record { data_bytes = nulls 20; type = 0 }

abbrev fresh : SignCtx Bool
unfolding sign_init
fresh = sign_init crypto sign_verify no_identity (pos 3)

-- Behind the signature's file.
abbrev signed : SignCtx Bool
signed = (process_file crypto false fresh (codes ".SIGN.RSA.key") (some (codes "sig"))).0

signed-Reachable : Reachable crypto false signed
signed-Reachable =
    goes_on fresh signed (unfold sign_init in begins sign_verify no_identity (pos 3))
      (file fresh (codes ".SIGN.RSA.key") (some (codes "sig")))

Reachable-IsConsistent_example : IsConsistent crypto false signed
Reachable-IsConsistent_example = Reachable-IsConsistent crypto false signed refl signed-Reachable

-- Behind the first file of the control block.
abbrev control : SignCtx Bool
control = (process_file crypto false signed (codes ".PKGINFO") none).0

control_verified_sound_example :
    ((verifies_key crypto control ≡ true)
      × (key_verifies crypto (at_end crypto false control (codes "block")) ≡ true))
    ⊎ ((control.action ≡ sign_verify_identity)
        × (identity_matches crypto (at_end crypto false control (codes "block")) ≡ true))
unfolding fresh process_file is_data_name has_slash starts_with sign_init mpart_cb close_block
    check_control trusts
control_verified_sound_example =
    control_verified_sound crypto false control part_end (codes "block") refl refl

data_verified_sound_example :
    ((control.has_data_checksum ≡ true)
      × (data_matches crypto (at_end crypto false control (codes "block")) ≡ true))
    ⊎ ((control.has_data_checksum ≡ false)
        × (part_end ≡ part_end)
        × ((mpart_cb crypto false control part_end (codes "block")).0.control_verified ≡ true))
unfolding fresh process_file is_data_name has_slash starts_with sign_init mpart_cb close_block
    check_control trusts
data_verified_sound_example =
    data_verified_sound crypto false control part_end (codes "block") refl refl

abbrev content : SignCtx Bool
content = (process_file crypto false control (codes "bin/sh") none).0

end_verifies_control_example :
    ((mpart_cb crypto false content part_end (codes "block")).0.control_verified ≡ true)
    × ((mpart_cb crypto false content part_end (codes "block")).0.data_verified ≡ true)
unfolding fresh process_file is_data_name has_slash starts_with sign_init mpart_cb close_block
    check_control trusts
end_verifies_control_example =
    end_verifies_control crypto false content (codes "block") refl refl refl (inl refl)
