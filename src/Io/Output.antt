-- ===== src/Io/Output.antt =====
-- apk-tools/src/io.c, lines 550 to 712 and 722 to 732: a stream that is written to a descriptor
-- through a buffer, one that counts its bytes, and a string that is written to a stream. An error of
-- a system call is the negative errno.
pub mod Contents
pub mod Closing
use am_linux_terminal_robot.Common.{
  ℕ, zero, suc, ◌+◌, ◌/◌, Bool, true, false, ◌&&◌, not, List, [], ◌∷◌, ◌++◌, Bytes, Option, none,
  some, if◌then◌else◌, ltb, leb, length, drop, ℤ, pos, neg, pos_part, eqb_ℤ, ltb_ℤ,
}
use am_linux_terminal_robot.Blob.Scan.{c_string}

-- struct apk_fd_ostream; `tmpfile` and `standard` are that there is a temporary file, and that the
-- descriptor is one of the three standard ones. `bytes` is the length of what the buffer holds.
pub record FdOstream (F : Type 0) : Type 0 where
  pub fd : F
  pub rc : ℤ
  pub tmpfile : Bool
  pub standard : Bool
  pub buffer : Bytes

abbrev pub buffer_size : ℕ
buffer_size = 1024

-- -EIO
abbrev pub eio : ℤ
eio = neg 5

-- What becomes of the temporary file.
pub data TmpFile : Type 0 where
  unused renamed unlinked : TmpFile

-- What fdo_close leaves, and its result.
pub record Closed (F : Type 0) : Type 0 where
  pub fd : F
  pub tmp : TmpFile
  pub rc : ℤ

-- `write` is the system call, with the number of bytes it wrote.
module _ {F : Type 0} (write : F → Bytes → F × ℤ) where
  -- The loop of safe_write behind `i` bytes. A round that goes on writes a byte at least.
  unfoldable pub safe_write_loop : ℕ → F → ℕ → Bytes → F × ℤ
  safe_write_loop zero fd i s = (fd, pos i)
  safe_write_loop (suc fuel) fd i [] = (fd, pos i)
  safe_write_loop (suc fuel) fd i (c ∷ s) =
      let (fd1, r) = write fd (c ∷ s) in
      let rest = safe_write_loop fuel fd1 (i + pos_part r) (drop (pos_part r) (c ∷ s)) in
      if ltb_ℤ r (pos 0) then (fd1, r) else if eqb_ℤ r (pos 0) then (fd1, pos i) else rest

  unfoldable pub safe_write : F → Bytes → F × ℤ
  safe_write fd s = safe_write_loop (length s) fd 0 s

  -- `r < 0 ? r : -EIO`
  abbrev pub failure : ℤ → ℤ
  failure r = if ltb_ℤ r (pos 0) then r else eio

  abbrev pub flushed : FdOstream F → F × ℤ → FdOstream F × ℤ
  flushed fos (fd, r) =
      if eqb_ℤ r (pos (length fos.buffer))
      then (record fos { fd = fd; buffer = [] }, pos 0)
      else (record fos { fd = fd; rc = failure r }, r)

  -- fdo_flush
  unfoldable pub fdo_flush : FdOstream F → FdOstream F × ℤ
  fdo_flush fos =
      if leb (length fos.buffer) 0 then (fos, pos 0) else flushed fos (safe_write fos.fd fos.buffer)

  -- `memcpy` to the buffer. A C program writes behind its end where there is no room.
  abbrev pub buffered : FdOstream F → Bytes → FdOstream F × ℤ
  buffered fos s = (record fos { buffer = fos.buffer ++ s }, pos (length s))

  -- The bytes are written behind the buffer's back.
  abbrev pub direct : FdOstream F → Bytes → F × ℤ → FdOstream F × ℤ
  direct fos s (fd, r) =
      if eqb_ℤ r (pos (length s))
      then (record fos { fd = fd }, r)
      else (record fos { fd = fd; rc = failure r }, r)

  -- What follows the flush in fdo_write.
  abbrev pub write_flushed : Bytes → FdOstream F × ℤ → FdOstream F × ℤ
  write_flushed s (fos, r) =
      if not (eqb_ℤ r (pos 0))
      then (fos, r)
      else if leb (buffer_size / 2) (length s)
      then direct fos s (safe_write fos.fd s)
      else buffered fos s

  -- fdo_write
  unfoldable pub fdo_write : FdOstream F → Bytes → FdOstream F × ℤ
  fdo_write fos s =
      if leb buffer_size (length s + length fos.buffer)
      then write_flushed s (fdo_flush fos)
      else buffered fos s

  -- `close_fd` is the result of close, zero or an error.
  abbrev pub closed_rc : FdOstream F → ℤ → ℤ
  closed_rc fos close_fd = if not fos.standard && ltb_ℤ close_fd (pos 0) then close_fd else fos.rc

  abbrev pub tmp_action : Bool → ℤ → TmpFile
  tmp_action false rc = unused
  tmp_action true rc = if eqb_ℤ rc (pos 0) then renamed else unlinked

  -- fdo_close: the result is that of the writes before it.
  unfoldable pub fdo_close : FdOstream F → ℤ → Closed F
  fdo_close fos close_fd = record {
    fd = (fdo_flush fos).0.fd;
    tmp = tmp_action fos.tmpfile (closed_rc fos close_fd);
    rc = closed_rc fos close_fd;
  }

  -- What apk_ostream_to_fd and apk_ostream_to_file set up over an open descriptor.
  abbrev pub to_fd : F → Bool → Bool → FdOstream F
  to_fd fd tmpfile standard = record {
    fd = fd;
    rc = pos 0;
    tmpfile = tmpfile;
    standard = standard;
    buffer = [];
  }

  -- The writes of a client that stops at the first one that does not take all of its bytes.
  unfoldable pub writes : List Bytes → FdOstream F → Option (FdOstream F)
  writes [] fos = some fos
  writes (s ∷ ss) fos =
      let (fos1, r) = fdo_write fos s in
      let rest = writes ss fos1 in if eqb_ℤ r (pos (length s)) then rest else none

-- co_write, with the counter
unfoldable pub co_write : ℕ → Bytes → ℕ × ℤ
co_write counter s = (counter + length s, pos (length s))

-- apk_ostream_write_string
unfoldable pub write_string : {S : Type 0} → (S → Bytes → S × ℤ) → S → Bytes → S × ℤ
write_string write os s =
    let text = c_string s in
    let (os1, r) = write os text in if eqb_ℤ r (pos (length text)) then (os1, r) else (os1, neg 1)
