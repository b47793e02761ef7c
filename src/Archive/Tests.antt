-- ===== src/Archive/Tests.antt =====
-- The theorems on tar archives at concrete inputs.
use am_linux_terminal_robot.Common.{
  ℕ, true, none, some, [], Bytes, codes, pos, length, ℤ, pos_part, take, drop,
}
use am_linux_terminal_robot.Archive.Data.{TarEntry}
use am_linux_terminal_robot.Archive.{FileInfo, file_header}
use am_linux_terminal_robot.Archive.Entry.{file_of}
use am_linux_terminal_robot.Archive.Blocks.{parsed_size}

-- No name is known, so the ids are those of the entry.
abbrev keep_id : Bytes → ℤ → ℕ
keep_id s n = pos_part n

abbrev no_digest : Bytes → Bytes
no_digest s = []

abbrev small_file : FileInfo
small_file = file_of (codes "a.txt") none none 5 1000 100 33188 1000000

abbrev small_size : ℕ
small_size = parsed_size keep_id keep_id no_digest true (file_header small_file 0)

-- A stream of bytes in memory
abbrev read_bytes : Bytes → ℕ → Bytes × (ℤ × Bytes)
read_bytes s n = (drop n s, (pos (length (take n s)), take n s))

abbrev hello : TarEntry Bytes
hello = record {
  tar_is = codes "hello, and what follows";
  bytes_left = 5;
  fed = [];
  csum = some (record { data_bytes = []; type = 0 });
}
