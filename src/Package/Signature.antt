-- ===== src/Package/Signature.antt =====
-- apk-tools/src/package.c, lines 363 to 531: the signature context that checks a package while its
-- parts are read. The digests, the keys and their files are the client's: record Crypto.
pub mod Block
mod Tests
use am_linux_terminal_robot.Common.{
  ℕ, zero, suc, ◌+◌, ◌%◌, Bool, true, false, ◌&&◌, ◌||◌, not, Option, none, some, [], ◌∷◌, ◌++◌,
  Bytes, codes, ◌==◌, if◌then◌else◌, length, take, drop, ℤ, pos, ltb_ℤ, eqb_ℤ, bytes_eq,
  starts_with,
}
use am_linux_terminal_robot.Blob.Scan.{split, for_each_segment, compare, in_set}
use am_linux_terminal_robot.Blob.Pull.{Pulled, pull_hexdump}
use am_linux_terminal_robot.Blob.Checksum.{Checksum, checksum_md5}

abbrev pub sign_none : ℕ
sign_none = 0

abbrev pub sign_verify : ℕ
sign_verify = 1

abbrev pub sign_verify_identity : ℕ
sign_verify_identity = 2

abbrev pub sign_generate_v1 : ℕ
sign_generate_v1 = 3

abbrev pub sign_generate : ℕ
sign_generate = 4

abbrev pub sign_verify_and_generate : ℕ
sign_verify_and_generate = 5

-- The digests that the code asks OpenSSL for.
pub data Md : Type 0 where
  md_null md5 sha1 dss1 sha256 : Md

-- What the code calls outside the repository. `digest` and `verify_final` read all bytes that a
-- context was fed since it was initialised; `open_key` opens the file of a key and reads it: none
-- if there is no such file, and a null key if it holds none.
pub record Crypto (Key : Type 0) : Type 0 where
  pub md_size : Md → ℕ
  pub digest : Md → Bytes → Bytes
  pub verify_final : Md → Bytes → Option Bytes → Option Key → ℤ
  pub open_key : Bytes → Option (Option Key)

-- EVP_MD_CTX: the digest it was initialised with, and what it was fed since.
pub record Digest : Type 0 where
  pub kind : Md
  pub fed : Bytes

-- struct apk_sign_ctx; a null key and a null signature are none.
pub record SignCtx (Key : Type 0) : Type 0 where
  pub keys_fd : ℤ
  pub action : ℕ
  pub md : Md
  pub num_signatures : ℕ
  pub control_started : Bool
  pub data_started : Bool
  pub has_data_checksum : Bool
  pub control_verified : Bool
  pub data_verified : Bool
  pub data_checksum : Bytes
  pub identity : Checksum
  pub mdctx : Digest
  pub signature_data : Option Bytes
  pub pkey : Option Key

pub data Errno : Type 0 where
  enokey ekeyrejected ecanceled : Errno

-- What a function returns: a number, or the negative of an error.
pub data Returns : Type 0 where
  ret : ℕ → Returns
  fails : Errno → Returns

pub data Part : Type 0 where
  part_data part_boundary part_end : Part

abbrev pub is_data : Part → Bool
is_data part_data = true
is_data part_boundary = false
is_data part_end = false

abbrev pub is_boundary : Part → Bool
is_boundary part_data = false
is_boundary part_boundary = true
is_boundary part_end = false

abbrev pub is_end : Part → Bool
is_end part_data = false
is_end part_boundary = false
is_end part_end = true

abbrev pub nulls : ℕ → Bytes
nulls zero = []
nulls (suc n) = 0 ∷ nulls n

-- strchr(name, '/') != NULL
unfoldable pub has_slash : Bytes → Bool
has_slash [] = false
has_slash (c ∷ s) = c == b'/' || has_slash s

-- A name with no dot in front, or with a slash.
unfoldable pub is_data_name : Bytes → Bool
is_data_name [] = true
is_data_name (c ∷ s) = not (c == b'.') || has_slash (c ∷ s)

module _ {Key : Type 0} (crypto : Crypto Key) where
  abbrev zeroed : ℤ → ℕ → SignCtx Key
  zeroed fd act = record {
    keys_fd = fd;
    action = act;
    md = md_null;
    num_signatures = 0;
    control_started = false;
    data_started = false;
    has_data_checksum = false;
    control_verified = false;
    data_verified = false;
    data_checksum = nulls 64;
    identity = record { data_bytes = nulls 20; type = 0 };
    mdctx = record { kind = md_null; fed = [] };
    signature_data = none;
    pkey = none;
  }

  abbrev all_started : Md → SignCtx Key → SignCtx Key
  all_started m ctx = record ctx { md = m; control_started = true; data_started = true }

  -- The `switch` of apk_sign_ctx_init.
  abbrev by_action : Checksum → SignCtx Key → SignCtx Key
  by_action ident ctx =
      if ctx.action == sign_verify
      then ctx
      else if ctx.action == sign_verify_identity
      then (if ident.type == checksum_md5
          then (let c = all_started md5 ctx in record c { identity = ident })
          else record ctx { md = sha1; identity = ident })
      else if ctx.action == sign_generate_v1
      then all_started md5 ctx
      else if ctx.action == sign_generate || ctx.action == sign_verify_and_generate
      then record ctx { md = sha1 }
      else all_started md_null ctx

  abbrev pub reset_digest : SignCtx Key → SignCtx Key
  reset_digest ctx = record ctx { mdctx = record { kind = ctx.md; fed = [] } }

  abbrev pub feed : SignCtx Key → Bytes → SignCtx Key
  feed ctx s = record ctx { mdctx = record { kind = ctx.mdctx.kind; fed = ctx.mdctx.fed ++ s } }

  -- apk_sign_ctx_init
  unfoldable pub sign_init : ℕ → Checksum → ℤ → SignCtx Key
  sign_init act ident fd = reset_digest (by_action ident (zeroed fd act))

  abbrev pub verifies_key : SignCtx Key → Bool
  verifies_key ctx = ctx.action == sign_verify || ctx.action == sign_verify_and_generate

  abbrev has_key : Option Key → Bool
  has_key none = false
  has_key (some k) = true

  -- check_signing_key_trust; `untrusted` is the flag APK_ALLOW_UNTRUSTED.
  unfoldable pub trusts : Bool → SignCtx Key → Bool
  trusts untrusted ctx = not (verifies_key ctx) || has_key ctx.pkey || untrusted

  -- A signature's file is opened; `blob` is what apk_blob_from_istream reads.
  abbrev with_key : Md → Option Bytes → SignCtx Key → Option (Option Key) → SignCtx Key
  with_key m blob ctx none = ctx
  with_key m blob ctx (some none) = record ctx { pkey = none }
  with_key m blob ctx (some (some k)) = record ctx { md = m; pkey = some k; signature_data = blob }

  abbrev read_signature : Bytes → Option Bytes → SignCtx Key → SignCtx Key
  read_signature name blob ctx =
      if starts_with (codes "RSA.") (drop 6 name)
      then with_key sha1 blob ctx (crypto.open_key (drop 10 name))
      else if starts_with (codes "DSA.") (drop 6 name)
      then with_key dss1 blob ctx (crypto.open_key (drop 10 name))
      else ctx

  abbrev signature_file : Bytes → Option Bytes → SignCtx Key → SignCtx Key
  signature_file name blob ctx =
      if not (verifies_key ctx) || has_key ctx.pkey
      then ctx
      else if ltb_ℤ ctx.keys_fd (pos 0)
      then ctx
      else read_signature name blob ctx

  -- apk_sign_ctx_process_file
  unfoldable pub process_file : Bool → SignCtx Key → Bytes → Option Bytes → SignCtx Key × Returns
  process_file untrusted ctx name blob =
      if ctx.data_started
      then (ctx, ret 1)
      else if is_data_name name
      then (
        record ctx { data_started = true; control_started = true },
        if trusts untrusted ctx then ret 1 else fails enokey,
      )
      else if ctx.control_started
      then (ctx, ret 1)
      else if not (starts_with (codes ".SIGN.") name)
      then (record ctx { control_started = true }, ret 1)
      else (
        signature_file name blob (record ctx { num_signatures = ctx.num_signatures + 1 }),
        ret 0,
      )

  -- What apk_blob_pull_hexdump leaves in the first bytes of `data_checksum`.
  abbrev stored : SignCtx Key → Pulled → Option (SignCtx Key)
  stored ctx none = none
  stored ctx (some (to, rest)) = some (record ctx {
    has_data_checksum = true;
    md = sha256;
    data_checksum = to ++ drop (length to) ctx.data_checksum;
  })

  abbrev pkginfo_field : SignCtx Key → Option (Bytes × Bytes) → Option (SignCtx Key)
  pkginfo_field ctx none = some ctx
  pkginfo_field ctx (some (l, r)) =
      if not ctx.data_started && eqb_ℤ (compare (codes "datahash") l) (pos 0)
      then stored ctx (pull_hexdump (some r) (take (crypto.md_size sha256) ctx.data_checksum))
      else some ctx

  -- apk_sign_ctx_parse_pkginfo_line, which returns 0; none: a byte outside the line is read.
  unfoldable pub parse_pkginfo_line : SignCtx Key → Bytes → Option (SignCtx Key)
  parse_pkginfo_line ctx [] = some ctx
  parse_pkginfo_line ctx (c ∷ line) =
      if c == b'#' then some ctx else pkginfo_field ctx (split b' ' (codes "= ") (c ∷ line))

  abbrev pkginfo_step : Option (SignCtx Key) → Bytes → Option (SignCtx Key) × ℤ
  pkginfo_step none line = (none, pos 0)
  pkginfo_step (some ctx) line = (parse_pkginfo_line ctx line, pos 0)

  -- The body of apk_sign_ctx_verify_tar for the file `.PKGINFO`, of the contents `blob`.
  unfoldable pub read_pkginfo : SignCtx Key → Bytes → Option (Option (SignCtx Key) × ℤ)
  read_pkginfo ctx blob = for_each_segment pkginfo_step b'\n' [] (some ctx) blob

  abbrev after_pkginfo : Option (Option (SignCtx Key) × ℤ) → Option (SignCtx Key)
  after_pkginfo none = none
  after_pkginfo (some (ctx, r)) = ctx

  abbrev returned_zero : Returns → Bool
  returned_zero (ret zero) = true
  returned_zero (ret (suc n)) = false
  returned_zero (fails e) = false

  -- apk_sign_ctx_verify_tar, which returns 0: an error of apk_sign_ctx_process_file is dropped.
  -- `blob` is what apk_blob_from_istream reads of the file.
  unfoldable pub verify_tar : Bool → SignCtx Key → Bytes → Bytes → Option (SignCtx Key)
  verify_tar untrusted ctx name blob =
      let (ctx', r) = process_file untrusted ctx name (some blob) in
      if returned_zero r
      then some ctx'
      else if bytes_eq name (codes ".PKGINFO")
      then after_pkginfo (read_pkginfo ctx' blob)
      else some ctx'
