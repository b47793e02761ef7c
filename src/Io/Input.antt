-- ===== src/Io/Input.antt =====
-- apk-tools/src/io.c, lines 27 to 128 and 439 to 457: streams that are read from a descriptor. A call
-- of a stream's `read` gives the ssize_t that it returns and the bytes that it stores.
pub mod Full
pub mod Skip
use am_linux_terminal_robot.Common.{
  ℕ, zero, suc, ◌+◌, ◌-◌, ◌%◌, ◌^◌, Bool, true, false, ◌&&◌, not, Option, none, some, List, [], ◌∷◌,
  ◌++◌, Bytes, if◌then◌else◌, ltb, ◌==◌, leb, length, ℤ, pos, negsuc, pos_part, eqb_ℤ, ltb_ℤ,
}

-- struct apk_fd_istream; `child` is that there is a process to wait for.
pub record FdIstream (F : Type 0) : Type 0 where
  pub fd : F
  pub child : Bool

-- `read` and `lseek` are the system calls, with what they return where that is no error and else the
-- negative errno. `status` is what translate_status makes of the child's status.
module _ {F : Type 0} (read : F → ℕ → F × ℤ × Bytes) (lseek : F → ℕ → F × ℤ) (status : ℤ) where
  -- The loop of fdi_read for the `size` bytes that are left, behind those in `done`. A round that
  -- goes on reads a byte at least.
  unfoldable pub fdi_loop : ℕ → F → ℕ → Bytes → F × ℤ × Bytes
  fdi_loop zero fd size done = (fd, pos (length done), done)
  fdi_loop (suc fuel) fd size done =
      let (fd1, r, bytes) = read fd size in
      let rest = fdi_loop fuel fd1 (size - pos_part r) (done ++ bytes) in
      if leb size 0
      then (fd, pos (length done), done)
      else if ltb_ℤ r (pos 0)
      then (fd1, r, done)
      else if eqb_ℤ r (pos 0)
      then (fd1, pos (length done), done)
      else rest

  -- A child that has been waited for gives the result of a read that has read nothing. An error of
  -- `read` is returned before that.
  abbrev pub fdi_end : Bool → F × ℤ × Bytes → FdIstream F × ℤ × Bytes
  fdi_end child (fd, r, bytes) =
      if eqb_ℤ r (pos 0) && child
      then (record { fd = fd; child = false }, status, bytes)
      else (record { fd = fd; child = child }, r, bytes)

  -- fdi_read with a place to store the bytes
  unfoldable pub fdi_read : FdIstream F → ℕ → FdIstream F × ℤ × Bytes
  fdi_read fis size = fdi_end fis.child (fdi_loop size fis.fd size [])

  abbrev pub fdi_sought : Bool → ℕ → F × ℤ → FdIstream F × ℤ
  fdi_sought child size (fd, r) =
      (record { fd = fd; child = child }, if ltb_ℤ r (pos 0) then r else pos size)

  -- fdi_read without one
  unfoldable pub fdi_seek : FdIstream F → ℕ → FdIstream F × ℤ
  fdi_seek fis size = fdi_sought fis.child size (lseek fis.fd size)

-- A ssize_t read as a size_t
abbrev pub size_of : ℤ → ℕ
size_of (pos n) = n % 2 ^ 64
size_of (negsuc n) = 2 ^ 64 - 1 - n

abbrev pub skip_size : ℕ
skip_size = 2048

-- min(togo, sizeof(buf))
abbrev pub chunk : ℕ → ℕ → ℕ
chunk most togo = if ltb most togo then most else togo

-- `read` is the one of a stream.
module _ {S : Type 0} (read : S → ℕ → S × ℤ × Bytes) where
  -- The loop of apk_istream_skip behind `done` bytes. The test `r < 0` is one of a size_t.
  unfoldable pub skip_loop : ℕ → S → ℕ → ℕ → S × ℕ
  skip_loop zero is size done = (is, done)
  skip_loop (suc fuel) is size done =
      let togo = chunk skip_size (size - done) in
      let (is1, r, _) = read is togo in
      let next = (done + size_of r) % 2 ^ 64 in
      let rest = skip_loop fuel is1 size next in
      if not (ltb done size)
      then (is, done)
      else if not (size_of r == togo)
      then (is1, next)
      else rest

  -- apk_istream_skip
  unfoldable pub istream_skip : S → ℕ → S × ℕ
  istream_skip is size = skip_loop size is size 0

  -- apk_blob_from_istream, where the two calls for memory give some; the blob has the length `r`.
  -- The test `rsize < 0` is one of a size_t.
  unfoldable pub blob_from_istream : S → ℕ → S × ℕ × Bytes
  blob_from_istream is size = let (is1, r, bytes) = read is size in (is1, size_of r, bytes)
