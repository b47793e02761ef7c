-- ===== src/Io/Splice.antt =====
-- apk-tools/src/io.c, lines 130 to 186: what a stream holds is copied to a descriptor. The calls that
-- show the progress are left out, and memory is taken to suffice.
pub mod Copies
pub mod Whole
use am_linux_terminal_robot.Common.{
  ℕ, zero, suc, ◌+◌, ◌-◌, ◌*◌, ◌%◌, ◌^◌, Bool, ◌&&◌, not, List, Bytes, if◌then◌else◌, ltb, ◌==◌, ℤ,
}
use am_linux_terminal_robot.Io.Input.{size_of, chunk}

-- The size from which on a file is mapped to memory, and the sizes of the buffers.
abbrev pub map_size : ℕ
map_size = 128 * 1024

abbrev pub mapped_most : ℕ
mapped_most = 2 * 1024 * 1024

abbrev pub buffer_most : ℕ
buffer_most = 256 * 1024

-- Whether `mmapbase` is set; `can_map` is that ftruncate and mmap do not fail.
abbrev pub is_mapped : Bool → ℕ → Bool
is_mapped can_map size = ltb map_size size && can_map

-- `bufsz`
abbrev pub bufsz : Bool → ℕ → ℕ
bufsz can_map size =
    let mapped_bufsz = if ltb map_size size then chunk mapped_most size else size in
    if is_mapped can_map size then mapped_bufsz else chunk buffer_most mapped_bufsz

-- `read` is the one of the stream, `write` the system call for a number of the bytes in a buffer, and
-- `store` a store to the memory that the descriptor's file is mapped to, at an offset.
module _ {S F : Type 0} (read : S → ℕ → S × ℤ × Bytes) (write : F → Bytes → ℕ → F × ℤ)
    (store : F → ℕ → Bytes → F) where
  -- The loop behind `done` bytes. The tests `r < 0` are those of a size_t.
  unfoldable pub splice_loop : ℕ → Bool → ℕ → ℕ → S → F → ℕ → S × F × ℕ
  splice_loop zero mapped most size is fd done = (is, fd, done)
  splice_loop (suc fuel) mapped most size is fd done =
      let togo = chunk most (size - done) in
      let (is1, r, bytes) = read is togo in
      let (fd1, w) = write fd bytes (size_of r) in
      let fd2 = if mapped then store fd done bytes else fd1 in
      let next = (done + size_of r) % 2 ^ 64 in
      let rest = splice_loop fuel mapped most size is1 fd2 next in
      if not (ltb done size)
      then (is, fd, done)
      else if not mapped && not (size_of w == size_of r)
      then (is1, fd1, size_of r)
      else if not (size_of r == togo)
      then (is1, fd2, next)
      else rest

  -- `truncate` is the system call ftruncate, with whether it succeeds, and `maps` whether mmap does
  -- behind it.
  module _ (truncate : F → ℕ → F × Bool) (maps : Bool) where
    -- The file as the loop finds it.
    abbrev pub sized : F → ℕ → F
    sized fd size = if ltb map_size size then (truncate fd size).0 else fd

    abbrev pub can_map : F → ℕ → Bool
    can_map fd size = (truncate fd size).1 && maps

    -- apk_istream_splice
    unfoldable pub istream_splice : S → F → ℕ → S × F × ℕ
    istream_splice is fd size =
        let mapping = can_map fd size in
        splice_loop size (is_mapped mapping size) (bufsz mapping size) size is (sized fd size) 0
