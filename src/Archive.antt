-- ===== src/Archive.antt =====
-- apk-tools/src/archive.c, lines 31 to 72 and 267 to 331: the header of an entry in a tar archive, and
-- how it is written. A header is the struct with its fields, each the bytes of its array.
pub mod Parse
pub mod Data
pub mod Octal
pub mod Entry
pub mod Blocks
mod Tests
use am_linux_terminal_robot.Common.{
  ℕ, zero, suc, ◌+◌, ◌-◌, ◌*◌, ◌/◌, ◌%◌, Bool, true, false, ◌&&◌, not, Option, none, some, List, [],
  ◌∷◌, ◌++◌, Bytes, codes, ◌==◌, if◌then◌else◌, leb, length, take, drop, ℤ, pos, neg, negsuc, eqb_ℤ,
  int_of_word, get_or, starts_with, ◌||◌, ◌^◌, pos_part,
}
use am_linux_terminal_robot.Blob.Scan.{c_string}
use am_linux_terminal_robot.Blob.Checksum.{Checksum}
use am_linux_terminal_robot.Blob.Pull.{pull_uint}

-- struct tar_header
pub record TarHeader : Type 0 where
  pub name : Bytes
  pub mode : Bytes
  pub uid : Bytes
  pub gid : Bytes
  pub size : Bytes
  pub mtime : Bytes
  pub chksum : Bytes
  pub typeflag : ℕ
  pub linkname : Bytes
  pub magic : Bytes
  pub uname : Bytes
  pub gname : Bytes
  pub devmajor : Bytes
  pub devminor : Bytes
  pub prefix : Bytes
  pub padding : Bytes

abbrev pub behind_name : TarHeader → Bytes
behind_name buf =
    buf.mode
    ++ buf.uid
    ++ buf.gid
    ++ buf.size
    ++ buf.mtime
    ++ buf.chksum
    ++ (buf.typeflag ∷ [])
    ++ buf.linkname
    ++ buf.magic
    ++ buf.uname
    ++ buf.gname
    ++ buf.devmajor
    ++ buf.devminor
    ++ buf.prefix
    ++ buf.padding

abbrev pub header_bytes : TarHeader → Bytes
header_bytes buf = buf.name ++ behind_name buf

-- struct apk_file_info. The times and sizes are those of an `int` that is not negative.
pub record FileInfo : Type 0 where
  pub name : Option Bytes
  pub link_target : Option Bytes
  pub uname : Option Bytes
  pub gname : Option Bytes
  pub size : ℤ
  pub uid : ℕ
  pub gid : ℕ
  pub mode : ℕ
  pub mtime : ℤ
  pub csum : Checksum

-- The `unsigned int` that apk_blob_pull_uint reads in get_octal, and the `int` that get_octal returns.
abbrev pub octal_word : Bytes → ℕ
octal_word s = (pull_uint (some s) 8).0

unfoldable pub get_octal : Bytes → ℤ
get_octal s = int_of_word (octal_word s)

abbrev pub fill : ℕ → ℕ → Bytes → Bytes
fill c zero done = done
fill c (suc n) done = c ∷ fill c n done

-- The two loops of put_octal over the bytes that are free in front of those that are done.
unfoldable pub octal_digits : ℕ → ℕ → Bytes → Bytes
octal_digits zero value done = done
octal_digits (suc free) value done =
    if value == 0
    then fill b'0' (suc free) done
    else octal_digits free (value / 8) ((b'0' + value % 8) ∷ done)

-- put_octal, over an array of `l` bytes
unfoldable pub put_octal : ℕ → ℕ → Bytes
put_octal l value = octal_digits (l - 1) value (0 ∷ [])

-- An integer as a `size_t`
abbrev pub size_word : ℤ → ℕ
size_word (pos n) = n
size_word (negsuc n) = 2 ^ 64 - 1 - n

-- strncpy of a C string into an array of `n` bytes that are zero
abbrev pub strncpy : ℕ → Bytes → Bytes
strncpy n s = take n (c_string s ++ fill 0 n [])

abbrev pub strncpy_or : ℕ → Bytes → Option Bytes → Bytes
strncpy_or n s none = strncpy n s
strncpy_or n s (some t) = strncpy n t

abbrev pub zero_header : TarHeader
zero_header = record {
  name = fill 0 100 [];
  mode = fill 0 8 [];
  uid = fill 0 8 [];
  gid = fill 0 8 [];
  size = fill 0 12 [];
  mtime = fill 0 12 [];
  chksum = fill 0 8 [];
  typeflag = 0;
  linkname = fill 0 100 [];
  magic = fill 0 8 [];
  uname = fill 0 32 [];
  gname = fill 0 32 [];
  devmajor = fill 0 8 [];
  devminor = fill 0 8 [];
  prefix = fill 0 155 [];
  padding = fill 0 12 [];
}

abbrev pub s_ifreg : ℕ
s_ifreg = 32768

-- mode & S_IFMT, in units of the last bit under the mask
abbrev pub file_type : ℕ → ℕ
file_type mode = mode / 4096 % 16

-- S_ISREG
abbrev pub is_reg : ℕ → Bool
is_reg mode = file_type mode == 8

unfoldable pub sum_bytes : Bytes → ℕ
sum_bytes [] = 0
sum_bytes (c ∷ s) = c + sum_bytes s

-- The checksum over the header with spaces in its place, in all but the last byte of the array.
unfoldable pub with_checksum : TarHeader → TarHeader
with_checksum buf =
    let spaced = record buf { chksum = fill b' ' 8 [] } in
    record buf { chksum = put_octal 7 (sum_bytes (header_bytes spaced)) ++ b' ' ∷ [] }

-- The header of a regular file. `now` is what time returns.
unfoldable pub file_header : FileInfo → ℕ → TarHeader
file_header ae now = with_checksum (record zero_header {
  typeflag = b'0';
  name = strncpy_or 100 [] ae.name;
  uname = strncpy_or 32 (codes "root") ae.uname;
  gname = strncpy_or 32 (codes "root") ae.gname;
  size = put_octal 12 (size_word ae.size);
  uid = put_octal 8 ae.uid;
  gid = put_octal 8 ae.gid;
  mode = put_octal 8 (ae.mode % 4096);
  mtime = put_octal 12 (if eqb_ℤ ae.mtime (pos 0) then now else size_word ae.mtime);
  magic = codes "ustar  " ++ 0 ∷ [];
})

-- `os->write` returns the number of bytes that it took, or an error.
module _ {S : Type 0} (write : S → Bytes → S × ℤ) where
  abbrev pub written : S × ℤ → ℕ → (S → S × ℤ) → S × ℤ
  written (os, r) n k = if eqb_ℤ r (pos n) then k os else (os, neg 1)

  -- apk_tar_write_padding, behind `size` bytes
  unfoldable pub write_padding : ℕ → S → S × ℤ
  write_padding size os =
      let pad = 512 - size % 512 in
      if pad == 512
      then (os, pos 0)
      else written (write os (fill 0 pad [])) pad (λ os1. (os1, pos 0))

  -- The data has as many bytes as the size says at least, and the size is not negative.
  abbrev pub write_data : ℕ → Option Bytes → S → S × ℤ
  write_data size none os = (os, pos 0)
  write_data size (some d) os = written (write os (take size d)) size (write_padding size)

  -- apk_tar_write_entry: the end of an archive, and an entry.
  unfoldable pub write_end : S → S × ℤ
  write_end os =
      let empty_header = header_bytes zero_header in
      written (write os empty_header) 512
        (λ os1. written (write os1 empty_header) 512 (λ os2. (os2, pos 0)))

  unfoldable pub write_entry : FileInfo → Option Bytes → ℕ → S → S × ℤ
  write_entry ae d now os =
      if is_reg ae.mode
      then written (write os (header_bytes (file_header ae now))) 512
          (write_data (pos_part ae.size) d)
      else (os, neg 1)
