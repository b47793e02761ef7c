-- ===== src/Package/Info/Pkginfo.antt =====
-- apk-tools/src/package.c, lines 689 to 723: read_info_line, over the lines of `.PKGINFO`.
use am_linux_terminal_robot.Common.{
  ℕ, Option, none, some, List, [], ◌∷◌, Bytes, codes, ◌==◌, if◌then◌else◌, pos, eqb_ℤ,
}
use am_linux_terminal_robot.Blob.Scan.{compare, split}
use am_linux_terminal_robot.Package.Signature.{Crypto, SignCtx, parse_pkginfo_line}
use am_linux_terminal_robot.Package.Info.{InfoCtx, add_info, kept}

-- `fields`: the words of `.PKGINFO`, and the field of each.
abbrev pub field_names : List (Bytes × ℕ)
field_names =
    (codes "pkgname", b'P')
    ∷ (codes "pkgver", b'V')
    ∷ (codes "pkgdesc", b'T')
    ∷ (codes "url", b'U')
    ∷ (codes "size", b'I')
    ∷ (codes "license", b'L')
    ∷ (codes "arch", b'A')
    ∷ (codes "depend", b'D')
    ∷ []

-- The loop over `fields`: the field of the first word that is equal to `l`.
unfoldable pub field_of : List (Bytes × ℕ) → Bytes → Option ℕ
field_of [] l = none
field_of ((str, field) ∷ fields) l =
    if eqb_ℤ (compare str l) (pos 0) then some field else field_of fields l

module _ {Key : Type 0} (crypto : Crypto Key) where
  -- struct read_info_ctx: the package with the database, and the signature context.
  pub record ReadCtx : Type 0 where
    pub info : InfoCtx
    pub sctx : SignCtx Key

  abbrev with_info : ReadCtx → Option InfoCtx → Option ReadCtx
  with_info ctx none = none
  with_info ctx (some i) = some (record ctx { info = i })

  abbrev with_sctx : ReadCtx → Option (SignCtx Key) → Option ReadCtx
  with_sctx ctx none = none
  with_sctx ctx (some s) = some (record ctx { sctx = s })

  -- A field is added, whatever apk_pkg_add_info returns; other lines go to the signature context.
  abbrev pub read_field : ReadCtx → Bytes → Bytes → Option ℕ → Option ReadCtx
  read_field ctx line r (some field) = with_info ctx (kept (add_info ctx.info field (some r)))
  read_field ctx line r none = with_sctx ctx (parse_pkginfo_line crypto ctx.sctx line)

  abbrev read_split : ReadCtx → Bytes → Option (Bytes × Bytes) → Option ReadCtx
  read_split ctx line none = some ctx
  read_split ctx line (some (l, r)) = read_field ctx line r (field_of field_names l)

  -- read_info_line, which returns 0.
  unfoldable pub read_info_line : ReadCtx → Bytes → Option ReadCtx
  read_info_line ctx [] = some ctx
  read_info_line ctx (c ∷ line) =
      if c == b'#' then some ctx else read_split ctx (c ∷ line) (split b' ' (codes "= ") (c ∷ line))
