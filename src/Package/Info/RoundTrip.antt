-- ===== src/Package/Info/RoundTrip.antt =====
-- About `apk_pkg_write_index_entry` and `apk_pkg_parse_index_entry` of apk-tools/src/package.c, one
-- after the other.
use am_linux_terminal_robot.Common.{
  ℕ, ◌<◌, ◌^◌, ◌≡◌, refl, sym, ap, ◌∙◌, Bool, true, false, Option, none, some, [], ◌∷◌, ◌++◌, Bytes,
  codes, if◌then◌else◌, length, All, arith, append-nil, Bool-cases, inl, inr, ltb, pos,
}
use am_linux_terminal_robot.Blob.Push.{b64_chunks}
use am_linux_terminal_robot.Blob.Pull.{pull_uint}
use am_linux_terminal_robot.Blob.Checksum.{checksum_sha1, csum_blob}
use am_linux_terminal_robot.Blob.Checksums.{IsData, take_all}
use am_linux_terminal_robot.Blob.Plain.{b64_chunks-IsPlain, no_newline}
use am_linux_terminal_robot.Blob.Pieces.{collect}
use am_linux_terminal_robot.Blob.Segments.{fields, fields-joined}
use am_linux_terminal_robot.Blob.Splitting.{Lacks}
use am_linux_terminal_robot.Names.{Name, NameTable, name_key, query_name}
use am_linux_terminal_robot.Package.Dependency.{text_of}
use am_linux_terminal_robot.Package.Info.{
  Package, InfoCtx, null_file, new_info, new_package, parse_index_line, parse_index_entry, add_info,
}
use am_linux_terminal_robot.Package.Info.Fields.{read_lines, entry_of, parse_index_entry-read_lines}
use am_linux_terminal_robot.Package.Info.Index.{is_some, write_index_entry}
use am_linux_terminal_robot.Package.Info.Entry.{
  has_arch, entry_bytes, entry_result, write_index_entry-entry_bytes,
}
use am_linux_terminal_robot.Package.Info.Lines.{
  IsField, field-Lacks, text_line, number_line, name_line, csum_line, size_Lacks, labelled, step,
  no_more, named_entry, written_arch, lines_on, arch_lines, lines, entry_bytes-joined,
}

-- A package with all that an entry tells of it, whose name stands in the table.
pub record IsEntry (info : Package) (n : Name) (names : NameTable) : Type 0 where
  pub named : info.name ≡ some n
  pub found_name : query_name names (name_key n) ≡ some n
  pub some_name : 0 < length (name_key n)
  pub name_Lacks : Lacks b'\n' (name_key n)
  pub sha1 : info.csum.type ≡ checksum_sha1
  pub csum_data : IsData info.csum
  pub version : IsField info.version
  pub arch : IsField info.arch
  pub description : IsField info.description
  pub url : IsField info.url
  pub license : IsField info.license
  pub small_size : info.size < 2 ^ 32
  pub small_installed : info.installed_size < 2 ^ 32
  pub no_depends : info.depends ≡ []
  pub no_file : info.filename ≡ null_file

-- What is read of an entry of the package.
abbrev pub read_back : Package → InfoCtx → Bool → Option (InfoCtx × Option Package)
read_back info ctx write_arch =
    let info' : Package = record info { arch = written_arch info write_arch } in
    some (record ctx { pkg = info' }, some info')

module _ (info : Package) (n : Name) (ctx : InfoCtx) (i : IsEntry info n ctx.names) (size : Bytes)
    (installed : Bytes) (p : pull_uint (some size) 10 ≡ (info.size, some []))
    (q : pull_uint (some installed) 10 ≡ (info.installed_size, some [])) where
  abbrev of_pkg : Package → InfoCtx
  of_pkg pkg = record ctx { pkg = pkg }

  -- The context in the course of the lines.
  abbrev at : Option Bytes → ℕ → ℕ → Option Bytes → Option Bytes → Option Bytes → InfoCtx
  at arch size installed description url license = of_pkg (record new_package {
    csum = info.csum;
    name = some n;
    version = info.version;
    arch = arch;
    size = size;
    installed_size = installed;
    description = description;
    url = url;
    license = license;
  })

  same_pkg :
      (arch : Option Bytes)
      → at arch info.size info.installed_size info.description info.url info.license
        ≡ of_pkg (record info { arch = arch })
  same_pkg arch = rw (i.named, i.no_depends, i.no_file) refl

  lines_on-read :
      (arch : Option Bytes)
      → read_lines (some (at arch 0 0 none none none)) (lines_on info size installed)
        ≡ some (of_pkg (record info { arch = arch }))
  unfolding parse_index_line add_info
  lines_on-read arch =
      let s = info.size in
      let l = info.installed_size in
      let d = info.description in
      let u = info.url in
      step (at arch 0 0 none none none) _ _
        (number_line b'S' (at arch 0 0 none none none) (λ m. at arch m 0 none none none) size s refl
          (λ c t e. rw e refl) p)
        (step (at arch s 0 none none none) _ _
          (number_line b'I' (at arch s 0 none none none) (λ m. at arch s m none none none) installed
            l refl (λ c t e. rw e refl) q)
          (step (at arch s l none none none) _ _
            (text_line b'T' (at arch s l none none none) (λ v. at arch s l v none none) d refl
              (λ c t. refl) i.description)
            (step (at arch s l d none none) _ _
              (text_line b'U' (at arch s l d none none) (λ v. at arch s l d v none) u refl
                (λ c t. refl) i.url)
              (step (at arch s l d u none) _ _
                (text_line b'L' (at arch s l d u none) (λ v. at arch s l d u v) info.license refl
                  (λ c t. refl) i.license)
                (no_more (at arch s l d u info.license) ∙ ap some (same_pkg arch))))))

  -- The lines from that of the architecture on.
  arch_lines-read :
      (write_arch : Bool)
      → read_lines
          (some (at none 0 0 none none none))
          (arch_lines info (has_arch info write_arch) size installed)
        ≡ some (of_pkg (record info { arch = written_arch info write_arch }))
  unfolding parse_index_line add_info
  arch_lines-read false = lines_on-read none
  arch_lines-read true = with_line info.arch i.arch
    where
      with_line :
          (arch : Option Bytes)
          → IsField arch
          → read_lines (some (at none 0 0 none none none)) (
              if is_some arch
              then (codes "A:" ++ text_of arch) ∷ lines_on info size installed
              else lines_on info size installed)
            ≡ some (of_pkg (record info { arch = arch }))
      with_line none f = lines_on-read none
      with_line (some a) f =
          step (at none 0 0 none none none) _ _
            (text_line b'A' (at none 0 0 none none none) (λ v. at v 0 0 none none none) (some a)
              refl (λ c t. refl) f)
            (lines_on-read (some a))

  lines-read :
      (write_arch : Bool)
      → read_lines (some (new_info ctx)) (lines info n (has_arch info write_arch) size installed)
        ≡ some (of_pkg (record info { arch = written_arch info write_arch }))
  unfolding parse_index_line add_info
  lines-read write_arch =
      step (new_info ctx) _ _ (csum_line (new_info ctx) info.csum i.sha1 i.csum_data refl) (
        step (of_pkg (record new_package { csum = info.csum })) _ _
          (name_line (of_pkg (record new_package { csum = info.csum })) (name_key n) n i.some_name
            i.found_name)
          (step (of_pkg (record new_package { csum = info.csum; name = some n })) _ _
            (text_line b'V' (of_pkg (record new_package { csum = info.csum; name = some n }))
              (λ v. of_pkg (record new_package { csum = info.csum; name = some n; version = v }))
              info.version refl (λ c t. refl) i.version)
            (arch_lines-read write_arch)))

  lines_on-Lacks : All (Lacks b'\n') (lines_on info size installed)
  lines_on-Lacks = (
    labelled b'S' size (omega arith) (size_Lacks size p),
    (
      labelled b'I' installed (omega arith) (size_Lacks installed q),
      (
        labelled b'T' (text_of info.description) (omega arith)
            (field-Lacks info.description i.description),
        (
          labelled b'U' (text_of info.url) (omega arith) (field-Lacks info.url i.url),
          (
            labelled b'L' (text_of info.license) (omega arith) (field-Lacks info.license i.license),
            tt,
          ),
        ),
      ),
    ),
  )

  arch_lines-Lacks : (b : Bool) → All (Lacks b'\n') (arch_lines info b size installed)
  arch_lines-Lacks false = lines_on-Lacks
  arch_lines-Lacks true = (
    labelled b'A' (text_of info.arch) (omega arith) (field-Lacks info.arch i.arch),
    lines_on-Lacks,
  )

  b64-Lacks : Lacks b'\n' (b64_chunks (csum_blob info.csum) checksum_sha1)
  b64-Lacks =
      rw (i.sha1, take_all 20 info.csum.data_bytes i.csum_data.size)
        (no_newline _ (
          b64_chunks-IsPlain info.csum.data_bytes checksum_sha1 i.csum_data.all_bytes
            (omega arith)))

  lines-Lacks : (b : Bool) → All (Lacks b'\n') (lines info n b size installed)
  lines-Lacks b = (
    labelled b'C' (codes "Q1" ++ b64_chunks (csum_blob info.csum) checksum_sha1) (omega arith)
        ((λ e. omega (arith, e)), ((λ e. omega (arith, e)), b64-Lacks)),
    (
      labelled b'P' (name_key n) (omega arith) i.name_Lacks,
      (
        labelled b'V' (text_of info.version) (omega arith) (field-Lacks info.version i.version),
        arch_lines-Lacks b,
      ),
    ),
  )

  entry_bytes-read :
      (write_arch : Bool)
      → parse_index_entry ctx (entry_bytes info n write_arch size installed)
        ≡ read_back info ctx write_arch
  entry_bytes-read write_arch =
      parse_index_entry-read_lines ctx (entry_bytes info n write_arch size installed)
      ∙ ap entry_of (
          ap (λ b. read_lines (some (new_info ctx)) (fields b'\n' b))
            (entry_bytes-joined info n write_arch size installed)
          ∙ ap (read_lines (some (new_info ctx))) (
              fields-joined b'\n' (lines info n (has_arch info write_arch) size installed)
                (lines-Lacks (has_arch info write_arch)))
          ∙ lines-read write_arch)
      ∙ named_entry (of_pkg (record info { arch = written_arch info write_arch })) i.named

  result-read :
      (write_arch : Bool) (text : Bytes)
      → entry_result [] (entry_bytes info n write_arch size installed) [] ≡ (text, pos 0)
      → parse_index_entry ctx text ≡ read_back info ctx write_arch
  result-read write_arch text e =
      ap (parse_index_entry ctx) (sym (of_result (entry_bytes info n write_arch size installed) e))
      ∙ entry_bytes-read write_arch
    where
      of_result : (s : Bytes) → entry_result [] s [] ≡ (text, pos 0) → s ≡ text
      of_result s h = elim (Bool-cases (ltb 512 (length s))) [
        | inl b ↦ absurd (cc (ap (λ r. r.1) (rw b at h)))
        | inr b ↦ sym (append-nil s) ∙ ap (λ r. r.0) (rw b at h)
      ]

-- What `apk_pkg_write_index_entry` writes for a package to an empty stream that takes all bytes, if
-- it returns zero, is read by `apk_pkg_parse_index_entry` as that package, with its architecture if
-- that was written and else with none, and the table of names stays as it was. The package has a name
-- that the table finds, with a byte at least and no newline, a SHA-1 checksum, sizes of 32 bits, no
-- dependencies and no file name; its other fields are missing, or have a byte at least and neither a
-- newline nor a null byte.
pub parse_index_entry-write_index_entry :
    (info : Package) (n : Name) (ctx : InfoCtx) (write_arch : Bool) (text : Bytes)
    → IsEntry info n ctx.names
    → write_index_entry collect info n write_arch [] ≡ (text, pos 0)
    → parse_index_entry ctx text ≡ read_back info ctx write_arch
parse_index_entry-write_index_entry info n ctx write_arch text i e =
    let (size, installed, p, q, w) =
      write_index_entry-entry_bytes info n write_arch i.sha1 i.small_size i.small_installed
        (rw i.no_depends tt) in
    result-read info n ctx i size installed p q write_arch text (
      ap (entry_result [] (entry_bytes info n write_arch size installed)) (sym i.no_depends)
      ∙ sym (w [])
      ∙ e)
