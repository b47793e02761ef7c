-- ===== src/Archive/Entry.antt =====
-- About the header that apk_tar_write_entry of apk-tools/src/archive.c writes, as apk_tar_parse reads
-- it.
use am_linux_terminal_robot.Common.{ℕ, Bool, Option, none, some, Bytes, ℤ, pos}
use am_linux_terminal_robot.Archive.{TarHeader, FileInfo, zero_header}
use am_linux_terminal_robot.Archive.Parse.{no_csum}

-- A regular file with its name, and the state of the entry
abbrev pub file_of : Bytes → Option Bytes → Option Bytes → ℕ → ℕ → ℕ → ℕ → ℕ → FileInfo
file_of s uname gname size uid gid mode mtime = record {
  name = some s;
  link_target = none;
  uname = uname;
  gname = gname;
  size = pos size;
  uid = uid;
  gid = gid;
  mode = mode;
  mtime = pos mtime;
  csum = no_csum;
}

module _ (resolve_uid resolve_gid : Bytes → ℤ → ℕ) (sha1 : Bytes → Bytes)
    (soft_checksums : Bool) where
  -- The header of a regular file with its fields
  abbrev regular_header :
      Bytes → Bytes → Bytes → Bytes → Bytes → Bytes → Bytes → Bytes → Bytes → Bytes → TarHeader
  regular_header name mode uid gid size mtime chksum magic uname gname = record zero_header {
    name = name;
    mode = mode;
    uid = uid;
    gid = gid;
    size = size;
    mtime = mtime;
    chksum = chksum;
    typeflag = b'0';
    magic = magic;
    uname = uname;
    gname = gname;
  }
