-- ===== src/Io/Lines/Tokens.antt =====
-- About the two kinds of streams of apk-tools/src/io.c that a client reads line by line.
use am_linux_terminal_robot.Common.{
  ℕ, zero, suc, ◌+◌, ◌<◌, ◌≤◌, ◌≡◌, refl, ap, true, Option, some, List, [], ◌∷◌, ◌++◌, Bytes,
  length, arith, All, pos, ℤ,
}
use am_linux_terminal_robot.Blob.Splitting.{Lacks}
use am_linux_terminal_robot.Io.Input.Full.{IsFull}
use am_linux_terminal_robot.Io.Lines.{
  no_bytes, IstreamBstream, buffer_size, mmap_read, from_file, read_all, with_first,
}
use am_linux_terminal_robot.Io.Lines.Cuts.{text, split-Lacks, split-text}

-- A line that fits into the buffer with the byte at its end.
abbrev pub IsLine : ℕ → Bytes → Type 0
IsLine c l = Lacks c l × (length l < buffer_size)

-- The lines, and a rest that is not empty.
abbrev pub and_rest : List Bytes → Bytes → List Bytes
and_rest ls [] = ls
and_rest ls (x ∷ rest) = ls ++ (x ∷ rest) ∷ []

module _ {S : Type 0} (read : S → ℕ → S × ℤ × Bytes) (remaining : S → Bytes)
    (full : IsFull read remaining) (c : ℕ) where
  -- A client has read some blobs to the end of a text of `total` bytes.
  pub record HasRead (total : ℕ) (ls : List Bytes) (o : Option (IstreamBstream S × List Bytes))
      : Type 0 where
    pub to : IstreamBstream S
    pub reads : o ≡ some (to, ls)
    pub counted : to.size ≡ total

-- A client that reads the lines of a file by their last byte through mmap_read, with a read for each
-- and two more, gets the lines without that byte, which they do not contain, then the rest behind
-- the last line, also where it is empty, and then a null pointer; the stream is marked as ended.
pub read_all-from_file :
    (c : ℕ) (ls : List Bytes) (rest : Bytes) (fuel : ℕ)
    → All (Lacks c) ls
    → Lacks c rest
    → length ls + 2 ≤ fuel
    → read_all mmap_read fuel (from_file (text c ls rest)) (some (c, []))
      ≡ some (record { left = no_bytes (pos 0); eof = true }, ls ++ rest ∷ [])
unfolding read_all mmap_read text
read_all-from_file c [] rest (suc (suc fuel)) all h enough = rw (split-Lacks c rest h) refl
read_all-from_file c (l ∷ ls) rest (suc fuel) (hl, all) h enough =
    rw (split-text c l (text c ls rest) hl) (
      ap (with_first mmap_read l) (read_all-from_file c ls rest fuel all h (omega (arith, enough))))
read_all-from_file c ls rest zero all h enough = absurd (omega (arith, enough))
read_all-from_file c [] rest (suc zero) all h enough = absurd (omega (arith, enough))
