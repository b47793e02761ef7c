-- ===== src/Io/Lines.antt =====
-- apk-tools/src/io.c, lines 188 to 306 and 380 to 398: streams that are read by tokens, from a stream
-- through a buffer, from a file that is mapped to memory, and with a copy to a descriptor. A read
-- has no result where the C program cuts a blob without bytes at a token, which is undefined. What is left
-- is copied to the start of the buffer as memmove does; the C program calls memcpy, which is undefined
-- where the two places overlap.
pub mod Cuts
pub mod Buffered
pub mod Whole
pub mod Tokens
pub mod Tee
use am_linux_terminal_robot.Common.{
  ℕ, zero, suc, ◌+◌, ◌-◌, ◌*◌, Bool, true, false, Option, none, some, List, [], ◌∷◌, ◌++◌, Bytes,
  if◌then◌else◌, ltb, length, ℤ, pos, negsuc, pos_part, eqb_ℤ, ltb_ℤ,
}
use am_linux_terminal_robot.Blob.Scan.{split}

-- An apk_blob_t with bytes, or one with a null pointer: APK_BLOB_NULL, with the length 0, or
-- APK_BLOB_ERROR.
pub data Block : Type 0 where
  bytes : Bytes → Block
  no_bytes : ℤ → Block

-- struct apk_istream_bstream, with what `left` holds
pub record IstreamBstream (S : Type 0) : Type 0 where
  pub is : S
  pub left : Block
  pub size : ℕ

abbrev pub buffer_size : ℕ
buffer_size = 8 * 1024

-- A token is none for APK_BLOB_NULL, and else the first byte with the others.
abbrev pub Token : Type 0
Token = Option (ℕ × Bytes)

-- `ret_all`
abbrev pub ret_all : {S : Type 0} → IstreamBstream S → Bytes → IstreamBstream S × Block
ret_all isbs b = (record isbs { left = bytes [] }, bytes b)

-- The split at a token, where it is found.
abbrev pub ret_split :
    {S : Type 0} → IstreamBstream S → Bytes → Option (Bytes × Bytes) → IstreamBstream S × Block
ret_split isbs b (some (l, r)) = (record isbs { left = bytes r }, bytes l)
ret_split isbs b none = ret_all isbs b

-- `read` is the one of the inner stream.
module _ {S : Type 0} (read : S → ℕ → S × ℤ × Bytes) where
  -- What is done with the bytes `b` after some more have been read.
  abbrev pub ret_more : Token → IstreamBstream S → Bytes → IstreamBstream S × Block
  ret_more none isbs b = ret_all isbs b
  ret_more (some (c, cs)) isbs b = ret_split isbs b (split c cs b)

  -- What is done where nothing more has been read.
  abbrev pub ret_end : IstreamBstream S → Bytes → IstreamBstream S × Block
  ret_end isbs [] = (record isbs { left = no_bytes (pos 0) }, no_bytes (pos 0))
  ret_end isbs (x ∷ b) = ret_all isbs (x ∷ b)

  abbrev pub after_read : Token → ℕ → Bytes → S × ℤ × Bytes → IstreamBstream S × Block
  after_read token size b (is, r, more) =
      if ltb_ℤ (pos 0) r
      then ret_more token (record { is = is; left = bytes b; size = size + pos_part r }) (b ++ more)
      else if eqb_ℤ r (pos 0)
      then ret_end (record { is = is; left = bytes b; size = size }) b
      else (record { is = is; left = no_bytes r; size = size }, no_bytes r)

  -- `/* We need more data */`
  abbrev pub refill : Token → IstreamBstream S → Bytes → IstreamBstream S × Block
  refill token isbs b = after_read token isbs.size b (read isbs.is (buffer_size - length b))

  abbrev pub or_refill :
      Token → IstreamBstream S → Bytes → Option (Bytes × Bytes) → IstreamBstream S × Block
  or_refill token isbs b none = refill token isbs b
  or_refill token isbs b (some (l, r)) = (record isbs { left = bytes r }, bytes l)

  -- What is_bs_read does with what is left.
  abbrev pub read_left : Token → IstreamBstream S → Block → Option (IstreamBstream S × Block)
  read_left token isbs (bytes []) = some (refill token isbs [])
  read_left none isbs (bytes (x ∷ b)) = some (ret_all isbs (x ∷ b))
  read_left (some (c, cs)) isbs (bytes (x ∷ b)) =
      some (or_refill (some (c, cs)) isbs (x ∷ b) (split c cs (x ∷ b)))
  read_left token isbs (no_bytes (pos zero)) = some (isbs, no_bytes (pos 0))
  read_left none isbs (no_bytes e) = some (record isbs { left = no_bytes (pos 0) }, no_bytes e)
  read_left (some (c, cs)) isbs (no_bytes e) = none

  -- is_bs_read
  unfoldable pub is_bs_read : IstreamBstream S → Token → Option (IstreamBstream S × Block)
  is_bs_read isbs token = read_left token isbs isbs.left

-- apk_bstream_from_istream
abbrev pub from_istream : {S : Type 0} → S → IstreamBstream S
from_istream is = record { is = is; left = bytes []; size = 0 }

-- struct apk_mmap_bstream, with what `left` holds and the flag APK_BSTREAM_EOF
pub record MmapBstream : Type 0 where
  pub left : Block
  pub eof : Bool

-- apk_mmap_bstream_from_fd, over the bytes of the file
abbrev pub from_file : Bytes → MmapBstream
from_file s = record { left = bytes s; eof = false }

-- All that is left, at the end of mmap_read.
abbrev pub mmap_rest : MmapBstream → MmapBstream × Block
mmap_rest mbs = (record { left = no_bytes (pos 0); eof = true }, mbs.left)

abbrev pub mmap_split : MmapBstream → Option (Bytes × Bytes) → MmapBstream × Block
mmap_split mbs (some (l, r)) = (record mbs { left = bytes r }, bytes l)
mmap_split mbs none = mmap_rest mbs

abbrev pub mmap_left : Token → MmapBstream → Block → MmapBstream × Block
mmap_left (some (c, cs)) mbs (bytes b) = mmap_split mbs (split c cs b)
mmap_left (some (c, cs)) mbs (no_bytes e) = mmap_rest mbs
mmap_left none mbs left = mmap_rest mbs

-- mmap_read
unfoldable pub mmap_read : MmapBstream → Token → Option (MmapBstream × Block)
mmap_read mbs token = some (mmap_left token mbs mbs.left)

-- struct apk_tee_bstream
pub record TeeBstream (B F : Type 0) : Type 0 where
  pub inner_bs : B
  pub fd : F
  pub size : ℤ

-- The sum of two integers
abbrev pub add : ℤ → ℤ → ℤ
add (pos a) (pos b) = pos (a + b)
add (pos a) (negsuc b) = if ltb b a then pos (a - b - 1) else negsuc (b - a)
add (negsuc a) (pos b) = if ltb a b then pos (b - a - 1) else negsuc (a - b)
add (negsuc a) (negsuc b) = negsuc (a + b + 1)

-- `write` is the system call, with its result, which is -1 for an error.
module _ {B F : Type 0} (read : B → Token → Option (B × Block)) (write : F → Bytes → F × ℤ) where
  abbrev pub tee_wrote : B → Bytes → ℤ → F × ℤ → TeeBstream B F × Block
  tee_wrote inner b size (fd, r) =
      (record { inner_bs = inner; fd = fd; size = add size r }, bytes b)

  abbrev pub tee_block : TeeBstream B F → Option (B × Block) → Option (TeeBstream B F × Block)
  tee_block tbs none = none
  tee_block tbs (some (inner, no_bytes e)) = some (record tbs { inner_bs = inner }, no_bytes e)
  tee_block tbs (some (inner, bytes b)) = some (tee_wrote inner b tbs.size (write tbs.fd b))

  -- tee_read
  unfoldable pub tee_read : TeeBstream B F → Token → Option (TeeBstream B F × Block)
  tee_read tbs token = tee_block tbs (read tbs.inner_bs token)

-- The blobs that a client gets that reads until it gets a null pointer, with `fuel` reads at most.
module _ {B : Type 0} (read : B → Token → Option (B × Block)) where
  abbrev pub with_first : Bytes → Option (B × List Bytes) → Option (B × List Bytes)
  with_first b none = none
  with_first b (some (bs, bb)) = some (bs, b ∷ bb)

  abbrev pub read_on : (B → Option (B × List Bytes)) → Option (B × Block) → Option (B × List Bytes)
  read_on next none = none
  read_on next (some (bs, no_bytes e)) = some (bs, [])
  read_on next (some (bs, bytes b)) = with_first b (next bs)

  unfoldable pub read_all : ℕ → B → Token → Option (B × List Bytes)
  read_all zero bs token = none
  read_all (suc fuel) bs token = read_on (λ bs1. read_all fuel bs1 token) (read bs token)
