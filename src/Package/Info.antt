-- ===== src/Package/Info.antt =====
-- apk-tools/src/package.c, lines 56 to 65, 638 to 687 and 955 to 987: the fields of a package,
-- which are read from the lines of an index.
pub mod Fields
pub mod Index
pub mod Pkginfo
pub mod Entry
pub mod Lines
pub mod RoundTrip
mod Tests
use am_linux_terminal_robot.Common.{
  ℕ, Bool, true, false, ◌&&◌, ◌||◌, not, Option, none, some, List, [], ◌∷◌, Bytes, codes, ◌==◌,
  if◌then◌else◌, ℤ, pos, neg, eqb_ℤ, length, is_lower,
}
use am_linux_terminal_robot.Blob.Scan.{c_string, cstr, compare, split, for_each_segment}
use am_linux_terminal_robot.Blob.Push.{Out, buffer, push_blob, push_uint, pushed}
use am_linux_terminal_robot.Blob.Pull.{pull_uint}
use am_linux_terminal_robot.Blob.Checksum.{Checksum, PulledCsum, push_csum, pull_csum}
use am_linux_terminal_robot.Names.{Name, NameTable, name_key, get_name}
use am_linux_terminal_robot.Package.Dependency.{
  Dependency, ParseContext, deps_parse, deps_write, text_of,
}
use am_linux_terminal_robot.Package.Signature.{Crypto, SignCtx, nulls, parse_pkginfo_line}

-- `pkg->filename`: APK_PKG_UNINSTALLABLE is a pointer that no string has.
pub data FileName : Type 0 where
  null_file uninstallable : FileName
  file_name : Bytes → FileName

-- struct apk_package, without its place in the database
pub record Package : Type 0 where
  pub name : Option Name
  pub version : Option Bytes
  pub arch : Option Bytes
  pub url : Option Bytes
  pub description : Option Bytes
  pub license : Option Bytes
  pub depends : List Dependency
  pub installed_size : ℕ
  pub size : ℕ
  pub filename : FileName
  pub csum : Checksum

-- apk_pkg_new
abbrev pub new_package : Package
new_package = record {
  name = none;
  version = none;
  arch = none;
  url = none;
  description = none;
  license = none;
  depends = [];
  installed_size = 0;
  size = 0;
  filename = null_file;
  csum = record { data_bytes = nulls 20; type = 0 };
}

-- The package, and what apk_pkg_add_info writes in the database.
pub record InfoCtx : Type 0 where
  pub pkg : Package
  pub names : NameTable
  pub compat_notinstallable : Bool
  pub compat_newfeatures : Bool

-- A null blob has no bytes.
abbrev pub bytes_of : Option Bytes → Bytes
bytes_of none = []
bytes_of (some s) = s

abbrev in_pkg : InfoCtx → Package → InfoCtx
in_pkg ctx p = record ctx { pkg = p }

-- The end of apk_pkg_add_info, for a value that is left: -1 if it is null.
abbrev pub ends : Option Bytes → InfoCtx → Option (InfoCtx × ℤ)
ends none ctx = some (ctx, neg 1)
ends (some s) ctx = some (ctx, pos 0)

abbrev with_depends : InfoCtx → Option Bytes → Option (ParseContext × ℤ) → Option (InfoCtx × ℤ)
with_depends ctx value none = none
with_depends ctx value (some (parsed, r)) =
    let p = ctx.pkg in
    let p' : Package = record p { depends = parsed.depends } in
    ends value (record ctx { pkg = p'; names = parsed.names })

abbrev with_csum : InfoCtx → PulledCsum → Option (InfoCtx × ℤ)
with_csum ctx none = none
with_csum ctx (some (sum, rest)) =
    let p = ctx.pkg in ends rest (in_pkg ctx (record p { csum = sum }))

-- The fields that database.c reads
abbrev pub installed_fields : Bytes
installed_fields = codes "FMRZ"

abbrev pub is_installed_field : ℕ → Bool
is_installed_field c = c == b'F' || c == b'M' || c == b'R' || c == b'Z'

-- The fields of one text
abbrev with_text : InfoCtx → ℕ → Option Bytes → Option InfoCtx
with_text ctx field value =
    let p = ctx.pkg in
    let s = some (cstr (bytes_of value)) in
    if field == b'V'
    then some (in_pkg ctx (record p { version = s }))
    else if field == b'T'
    then some (in_pkg ctx (record p { description = s }))
    else if field == b'U'
    then some (in_pkg ctx (record p { url = s }))
    else if field == b'L'
    then some (in_pkg ctx (record p { license = s }))
    else if field == b'A'
    then some (in_pkg ctx (record p { arch = s }))
    else none

-- The `default` of the `switch`.
abbrev pub unknown_field : InfoCtx → ℕ → InfoCtx
unknown_field ctx field =
    if is_lower field
    then record ctx { compat_newfeatures = true }
    else (let p = ctx.pkg in
        let p' : Package = record p { filename = uninstallable } in
        record ctx { pkg = p'; compat_notinstallable = true; compat_newfeatures = true })

-- The fields that are no text.
abbrev with_other : InfoCtx → ℕ → Option Bytes → Option (InfoCtx × ℤ)
with_other ctx field value =
    let p = ctx.pkg in
    if field == b'P'
    then (let p' : Package = record p { name = some (get_name ctx.names (bytes_of value)).1 } in
        ends value (record ctx { pkg = p'; names = (get_name ctx.names (bytes_of value)).0 }))
    else if field == b'D'
    then with_depends ctx value
        (deps_parse (record { names = ctx.names; depends = p.depends }) (bytes_of value))
    else if field == b'C'
    then with_csum ctx (pull_csum value p.csum)
    else if field == b'S'
    then (let (n, rest) = pull_uint value 10 in ends rest (in_pkg ctx (record p { size = n })))
    else if field == b'I'
    then (let (n, rest) = pull_uint value 10 in
        ends rest (in_pkg ctx (record p { installed_size = n })))
    else if is_installed_field field
    then some (ctx, pos 1)
    else some (unknown_field ctx field, pos 1)

abbrev text_or : Option InfoCtx → Option Bytes → Option (InfoCtx × ℤ) → Option (InfoCtx × ℤ)
text_or none value other = other
text_or (some ctx) value other = ends value ctx

-- apk_pkg_add_info; none: a byte outside the value is read, or a loop is out of fuel.
unfoldable pub add_info : InfoCtx → ℕ → Option Bytes → Option (InfoCtx × ℤ)
add_info ctx field value = text_or (with_text ctx field value) value (with_other ctx field value)

abbrev pub kept : Option (InfoCtx × ℤ) → Option InfoCtx
kept none = none
kept (some (ctx, r)) = some ctx

-- parse_index_line, which returns 0 whatever apk_pkg_add_info returns.
unfoldable pub parse_index_line : InfoCtx → Bytes → Option InfoCtx
parse_index_line ctx (field ∷ colon ∷ c ∷ value) =
    if not (colon == b':') then some ctx else kept (add_info ctx field (some (c ∷ value)))
parse_index_line ctx _ = some ctx

abbrev pub index_step : Option InfoCtx → Bytes → Option InfoCtx × ℤ
index_step none line = (none, pos 0)
index_step (some ctx) line = (parse_index_line ctx line, pos 0)

-- The test on the name behind the loop; none: a null pointer is returned.
abbrev pub named_package : InfoCtx → Option Package
named_package ctx = elim (ctx.pkg.name) [ none ↦ none | some n ↦ some ctx.pkg ]

abbrev pub new_info : InfoCtx → InfoCtx
new_info ctx = record ctx { pkg = new_package }

-- apk_pkg_parse_index_entry over the lines of `blob`, up to the test on the name. The context holds
-- the database.
unfoldable pub parse_index_lines : InfoCtx → Bytes → Option (Option InfoCtx × ℤ)
parse_index_lines ctx blob = for_each_segment index_step b'\n' [] (some (new_info ctx)) blob

abbrev parsed_entry : Option (Option InfoCtx × ℤ) → Option (InfoCtx × Option Package)
parsed_entry none = none
parsed_entry (some (none, r)) = none
parsed_entry (some (some ctx, r)) = some (ctx, named_package ctx)

-- apk_pkg_parse_index_entry
unfoldable pub parse_index_entry : InfoCtx → Bytes → Option (InfoCtx × Option Package)
parse_index_entry ctx blob = parsed_entry (parse_index_lines ctx blob)
