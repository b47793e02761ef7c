-- ===== src/Package/Info/Index.antt =====
-- apk-tools/src/package.c, lines 989 to 1036: apk_pkg_write_index_entry.
use am_linux_terminal_robot.Common.{
  Bool, true, false, not, Option, none, some, List, [], ◌∷◌, Bytes, codes, if◌then◌else◌, ℤ, pos,
  neg, eqb_ℤ, ◌%◌, ◌^◌, ltb_ℤ, length, ◌&&◌,
}
use am_linux_terminal_robot.Blob.Push.{Out, buffer, push_blob, push_uint, pushed}
use am_linux_terminal_robot.Blob.Checksum.{push_csum}
use am_linux_terminal_robot.Names.{Name, name_key}
use am_linux_terminal_robot.Package.Dependency.{Dependency, deps_write, text_of}
use am_linux_terminal_robot.Package.Info.{Package}

abbrev pub is_some : Option Bytes → Bool
is_some none = false
is_some (some s) = true

-- A field's label, on a line of its own, and its text.
abbrev pub push_field : Option Out → Bytes → Option Bytes → Option Out
push_field to label s = push_blob (push_blob to label) (text_of s)

-- The pushes up to the test of `bbuf`. `name` is what `info->name` points to. The sizes are pushed as
-- an `unsigned int`.
unfoldable pub index_text : Package → Name → Bool → Option Out → Option Out
index_text info name write_arch to =
    let to1 = push_csum (push_blob to (codes "C:")) info.csum in
    let to2 = push_blob (push_blob to1 (codes "\nP:")) (name_key name) in
    let to3 = push_field to2 (codes "\nV:") info.version in
    let to4 =
      if write_arch && is_some info.arch then push_field to3 (codes "\nA:") info.arch else to3 in
    let to5 = push_uint (push_blob to4 (codes "\nS:")) (info.size % 2 ^ 32) 10 in
    let to6 = push_uint (push_blob to5 (codes "\nI:")) (info.installed_size % 2 ^ 32) 10 in
    let to7 = push_field to6 (codes "\nT:") info.description in
    let to8 = push_field to7 (codes "\nU:") info.url in
    let to9 = push_field to8 (codes "\nL:") info.license in push_blob to9 (codes "\n")

-- `os->write` returns the number of bytes that it took, or an error.
module _ {S : Type 0} (write : S → Bytes → S × ℤ) where
  abbrev pub took_all : S × ℤ → Bytes → Bool
  took_all written s = eqb_ℤ written.1 (pos (length s))

  -- The line of the dependencies.
  unfoldable pub write_depends : List Dependency → S → S × ℤ
  write_depends [] os = (os, pos 0)
  write_depends (d ∷ deps) os =
      let label = write os (codes "D:") in
      let list = deps_write write (d ∷ deps) label.0 in
      let newline = write list.0 (codes "\n") in
      if not (took_all label (codes "D:"))
      then (label.0, neg 1)
      else if ltb_ℤ list.1 (pos 0)
      then list
      else if not (took_all newline (codes "\n"))
      then (newline.0, neg 1)
      else (newline.0, pos 0)

  abbrev pub write_text : List Dependency → Option Bytes → S → S × ℤ
  write_text deps none os = (os, neg 1)
  write_text deps (some s) os =
      let written = write os s in
      if not (took_all written s) then (written.0, neg 1) else write_depends deps written.0

  -- apk_pkg_write_index_entry, with its buffer of 512 bytes
  unfoldable pub write_index_entry : Package → Name → Bool → S → S × ℤ
  write_index_entry info name write_arch os =
      write_text info.depends (pushed 512 (index_text info name write_arch (buffer 512))) os
