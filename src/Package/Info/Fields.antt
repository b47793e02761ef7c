-- ===== src/Package/Info/Fields.antt =====
-- About `apk_pkg_parse_index_entry` of apk-tools/src/package.c over the lines of its entry.
use am_linux_terminal_robot.Common.{
  ◌≡◌, refl, ap, Option, none, some, List, [], ◌∷◌, Bytes, ◌∙◌, ℤ, pos,
}
use am_linux_terminal_robot.Blob.Segments.{fields, run_all, for_each_segment-run_all}
use am_linux_terminal_robot.Package.Info.{
  Package, InfoCtx, parse_index_line, parse_index_lines, parse_index_entry, index_step,
  parsed_entry, new_info, named_package,
}

-- The context behind the lines, each read in its turn; none if one reads outside its bytes.
unfoldable pub read_lines : Option InfoCtx → List Bytes → Option InfoCtx
read_lines none ls = none
read_lines (some ctx) [] = some ctx
read_lines (some ctx) (l ∷ ls) = read_lines (parse_index_line ctx l) ls

run_lines :
    (ctx : Option InfoCtx) (ls : List Bytes)
    → run_all index_step ctx ls ≡ (read_lines ctx ls, pos 0)
unfolding run_all read_lines
run_lines none [] = refl
run_lines none (l ∷ ls) = run_lines none ls
run_lines (some ctx) [] = refl
run_lines (some ctx) (l ∷ ls) = run_lines (parse_index_line ctx l) ls

-- What apk_pkg_parse_index_entry returns for the context behind the lines.
abbrev pub entry_of : Option InfoCtx → Option (InfoCtx × Option Package)
entry_of none = none
entry_of (some ctx) = some (ctx, named_package ctx)

ends_entry :
    (o : Option InfoCtx) {r : Option (Option InfoCtx × ℤ)}
    → r ≡ some (o, pos 0)
    → parsed_entry r ≡ entry_of o
ends_entry none e = rw e refl
ends_entry (some ctx) e = rw e refl

-- The loop of apk_pkg_parse_index_entry ends, with every line of the entry read in its turn into a
-- new package, whatever the lines before it gave; a package with no name is dropped.
pub parse_index_entry-read_lines :
    (ctx : InfoCtx) (blob : Bytes)
    → parse_index_entry ctx blob ≡ entry_of (read_lines (some (new_info ctx)) (fields b'\n' blob))
unfolding parse_index_entry parse_index_lines
parse_index_entry-read_lines ctx blob = ends_entry _ (
    for_each_segment-run_all index_step b'\n' (some (new_info ctx)) blob
    ∙ ap some (run_lines (some (new_info ctx)) (fields b'\n' blob)))
