-- ===== src/Archive/Parse.antt =====
-- apk-tools/src/archive.c, lines 44 to 49 and 127 to 243: an entry as apk_tar_parse reads it from its
-- header, and what it skips behind it. The ids that a name resolves to (apk_resolve_uid of io.c) and
-- the digest, which is OpenSSL's, are parameters.
-- The target of a symbolic link has a zero byte in its array. The device numbers are left out.
use am_linux_terminal_robot.Common.{
  ℕ, ◌+◌, ◌-◌, ◌*◌, ◌%◌, Bool, false, ◌&&◌, not, Option, none, some, [], ◌++◌, Bytes, codes, ◌==◌,
  if◌then◌else◌, leb, take, drop, ℤ, get_or, starts_with, ◌||◌,
}
use am_linux_terminal_robot.Blob.Scan.{c_string}
use am_linux_terminal_robot.Blob.Checksum.{Checksum}
use am_linux_terminal_robot.Archive.{
  TarHeader, FileInfo, header_bytes, octal_word, get_octal, fill, s_ifreg, file_type,
}

-- The id, the size and the bytes of a struct apk_tar_digest_info in an array.
abbrev pub digest_size : Bytes → ℕ
digest_size s = get_or s 6 0 + 256 * get_or s 7 0

abbrev pub has_digest : Bytes → Bool
has_digest s = starts_with (codes "APK2") s && leb (digest_size s) 20

-- The parts of a parsed entry: what is found, and whether its checksum is taken from its data.
pub record Parsed : Type 0 where
  pub info : FileInfo
  pub sums_data : Bool

abbrev pub no_csum : Checksum
no_csum = record { data_bytes = fill 0 20 []; type = 0 }

module _ (resolve_uid resolve_gid : Bytes → ℤ → ℕ) (sha1 : Bytes → Bytes)
    (soft_checksums : Bool) where
  -- The checksum in the device numbers
  abbrev pub device_csum : TarHeader → Checksum
  device_csum buf =
      if has_digest buf.devmajor
      then record { data_bytes = buf.devminor ++ buf.padding; type = digest_size buf.devmajor }
      else no_csum

  -- The checksum in the name of a link, of which the digest overwrites the first bytes of `data`
  abbrev pub link_csum : TarHeader → Checksum → Checksum
  link_csum buf old =
      let odi = drop 3 buf.linkname in
      let n = digest_size odi in
      record { data_bytes = take n (drop 8 odi) ++ drop n old.data_bytes; type = n }

  abbrev pub entry_info : TarHeader → Option Bytes → FileInfo
  entry_info buf name = record {
    name = name;
    link_target = none;
    uname = some buf.uname;
    gname = some buf.gname;
    size = get_octal buf.size;
    uid = resolve_uid buf.uname (get_octal buf.uid);
    gid = resolve_gid buf.gname (get_octal buf.gid);
    mode = octal_word buf.mode % 4096;
    mtime = get_octal buf.mtime;
    csum = device_csum buf;
  }

  abbrev pub parse_regular : TarHeader → FileInfo → Parsed
  parse_regular buf e =
      let regular = record e { mode = e.mode + s_ifreg } in
      if not (e.csum.type == 0)
      then record { info = regular; sums_data = false }
      else if has_digest (drop 3 buf.linkname)
      then record { info = record regular { csum = link_csum buf e.csum }; sums_data = false }
      else record { info = regular; sums_data = soft_checksums }

  abbrev pub parse_symlink : TarHeader → FileInfo → Parsed
  parse_symlink buf e =
      let link = record e { mode = e.mode + 40960; link_target = some buf.linkname } in
      if e.csum.type == 0 && soft_checksums
      then record {
        info = record link {
          csum = record { data_bytes = sha1 (c_string buf.linkname); type = 20 };
        };
        sums_data = false;
      }
      else record { info = link; sums_data = false }

  abbrev with_mode : FileInfo → ℕ → Parsed
  with_mode e m = record { info = record e { mode = e.mode + m }; sums_data = false }

  -- strdup of the name, which ends at the first zero byte, be that in the array or behind it
  abbrev pub with_name : TarHeader → Parsed → Parsed
  with_name buf p = if file_type p.info.mode == 0 then p else elim p.info.name [
    | none ↦ record p { info = record p.info { name = some (c_string (header_bytes buf)) } }
    | some s ↦ p
  ]

  -- The entry of a header in apk_tar_parse, but for a long name (typeflag L). `name` is that of a
  -- long name before it. The bits of a type are added, since the mode is below 4096.
  unfoldable pub parse_type : TarHeader → Option Bytes → Parsed
  parse_type buf name =
      let e = entry_info buf name in
      let t = buf.typeflag in
      if t == b'0' || t == b'7'
      then parse_regular buf e
      else if t == b'1'
      then record {
        info = record e { mode = e.mode + s_ifreg; link_target = some buf.linkname };
        sums_data = false;
      }
      else if t == b'2'
      then parse_symlink buf e
      else if t == b'3'
      then with_mode e 8192
      else if t == b'4'
      then with_mode e 24576
      else if t == b'5'
      then with_mode e 16384
      else record { info = e; sums_data = false }

  unfoldable pub parse_entry : TarHeader → Option Bytes → Parsed
  parse_entry buf name = with_name buf (parse_type buf name)

-- What is skipped behind an entry, of which `left` bytes were not read, at `offset` in the archive.
unfoldable pub to_skip : ℕ → ℕ → ℕ
to_skip offset left =
    if (offset + left) % 512 == 0 then left else left + (512 - (offset + left) % 512)
