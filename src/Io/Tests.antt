-- ===== src/Io/Tests.antt =====
-- Runs of the streams and of the cache of ids, and the theorems about them at concrete values.
use am_linux_terminal_robot.Common.{
  Bool, concat, ℕ, zero, suc, ◌-◌, ◌<◌, ◌≤◌, ◌≡◌, refl, sym, ap, ◌⊎◌, inl, inr, true, false, Option,
  none, some, List, [], ◌∷◌, ◌++◌, Bytes, codes, bytes_eq, length, length-take, take, drop, arith,
  ℤ, pos, neg, ltb_ℤ,
}
use am_linux_terminal_robot.Blob.Scan.{c_string}
use am_linux_terminal_robot.Io.Input.{FdIstream, fdi_read, chunk, istream_skip, skip_loop}
use am_linux_terminal_robot.Io.Input.Full.{IsFull, IsRead, fdi_read-IsFull}
use am_linux_terminal_robot.Io.Input.Skip.{Skips, istream_skip-Skips}
use am_linux_terminal_robot.Io.Lines.{mmap_read, from_file, read_all, no_bytes}
use am_linux_terminal_robot.Io.Lines.Cuts.{text}
use am_linux_terminal_robot.Io.Lines.Tokens.{read_all-from_file}
use am_linux_terminal_robot.Io.Output.{
  FdOstream, safe_write, safe_write_loop, fdo_write, writes, fdo_flush, fdo_close, tmp_action,
}
use am_linux_terminal_robot.Io.Output.Contents.{IsWrite}
use am_linux_terminal_robot.Io.Output.Closing.{closed_after_writes}
use am_linux_terminal_robot.Io.Splice.{istream_splice}
use am_linux_terminal_robot.Io.Splice.Copies.{Copies}
use am_linux_terminal_robot.Io.Splice.Whole.{istream_splice-Copies, istream_splice_ignores_errors}
use am_linux_terminal_robot.Io.Lines.{tee_read}
use am_linux_terminal_robot.Io.Lines.Tee.{Tees, start, read_all-tee_read}
use am_linux_terminal_robot.Io.Ids.{id_cache_init, scan}
use am_linux_terminal_robot.Io.Ids.Fresh.{
  Request, HasShortName, resets, user, group_of, reset, answers, answers_of_files,
  answers-id_cache_init,
}

-- A descriptor that holds some bytes, and gives three at most.
abbrev trickle : Bytes → ℕ → Bytes × ℤ × Bytes
trickle s size =
    (drop (chunk 3 size) s, pos (length (take (chunk 3 size) s)), take (chunk 3 size) s)

abbrev at_most : Bytes → ℕ → ℕ
at_most s size = length (take (chunk 3 size) s)

chunk_three : (size : ℕ) → 0 < size → (0 < chunk 3 size) × (chunk 3 size ≤ size)
chunk_three size h = ground (arith, h)

take-at_most : (n : ℕ) (s : Bytes) → take (length (take n s)) s ≡ take n s
take-at_most zero s = refl
take-at_most (suc n) [] = refl
take-at_most (suc n) (x ∷ s) = ap (λ t. x ∷ t) (take-at_most n s)

drop-at_most : (n : ℕ) (s : Bytes) → drop (length (take n s)) s ≡ drop n s
drop-at_most zero s = refl
drop-at_most (suc n) [] = refl
drop-at_most (suc n) (x ∷ s) = drop-at_most n s

empty_or_some : (s : Bytes) (n : ℕ) → 0 < n → (0 < length (take n s)) ⊎ (s ≡ [])
empty_or_some [] n h = inr refl
empty_or_some (x ∷ s) zero h = absurd (omega (arith, h))
empty_or_some (x ∷ s) (suc n) h = inl (omega arith)

trickle-IsRead : IsRead trickle (λ s. s)
trickle-IsRead s size h = record {
  number = at_most s size;
  asked = omega (arith, length-take (chunk 3 size) s, (chunk_three size h).1);
  there = omega (arith, length-take (chunk 3 size) s);
  some_byte = empty_or_some s (chunk 3 size) (chunk_three size h).0;
  gives = record {
    result = ap (λ t. pos (length t)) (sym (take-at_most (chunk 3 size) s));
    stored = sym (take-at_most (chunk 3 size) s);
    left = sym (drop-at_most (chunk 3 size) s);
  };
}

abbrev seek : Bytes → ℕ → Bytes × ℤ
seek s size = (drop size s, pos 0)

abbrev rest_of : FdIstream Bytes → Bytes
rest_of fis = fis.fd

trickle-IsFull : IsFull (fdi_read trickle seek (pos 0)) rest_of
trickle-IsFull = fdi_read-IsFull trickle seek (pos 0) (λ s. s) trickle-IsRead refl

fdi_read-IsFull_example : IsFull (fdi_read trickle seek (pos 0)) rest_of
fdi_read-IsFull_example = fdi_read-IsFull trickle seek (pos 0) (λ s. s) trickle-IsRead refl

abbrev two_lines : List Bytes
two_lines = codes "P:busybox" ∷ codes "V:1.20" ∷ []

abbrev lines_stream : FdIstream Bytes
lines_stream = record { fd = text 10 two_lines (codes "x"); child = true }

istream_skip-Skips_example :
    Skips
      (fdi_read trickle seek (pos 0))
      rest_of
      trickle-IsFull
      12
      (omega arith)
      lines_stream
      0
      (istream_skip (fdi_read trickle seek (pos 0)) lines_stream 12)
istream_skip-Skips_example =
    istream_skip-Skips (fdi_read trickle seek (pos 0)) rest_of trickle-IsFull 12 (omega arith)
      lines_stream

read_all-from_file_example :
    read_all mmap_read 4 (from_file (text 10 two_lines [])) (some (10, []))
    ≡ some (record { left = no_bytes (pos 0); eof = true }, two_lines ++ [] ∷ [])
read_all-from_file_example = read_all-from_file 10 two_lines [] 4 (ground arith) tt (omega arith)

-- A descriptor with some bytes and room for a number of others; a write to a full one fails with
-- -ENOSPC.
abbrev disk_write : Bytes × ℕ → Bytes → (Bytes × ℕ) × ℤ
disk_write (done, zero) s = ((done, 0), neg 28)
disk_write (done, suc room) s = (
  (done ++ take (suc room) s, suc room - length (take (suc room) s)),
  pos (length (take (suc room) s)),
)

abbrev on_disk : Bytes × ℕ → Bytes
on_disk (done, room) = done

disk_write-IsWrite : IsWrite disk_write on_disk
disk_write-IsWrite (done, zero) c s = inl refl
disk_write-IsWrite (done, suc room) c s = inr (record {
  number = length (take (suc room) (c ∷ s));
  result = refl;
  some_byte = omega arith;
  no_more = omega (arith, length-take (suc room) (c ∷ s));
  appended = ap (λ t. done ++ t) (sym (take-at_most (suc room) (c ∷ s)));
})

abbrev busy : Bytes
busy = codes "busybox"

-- A full disk: the flush of the last bytes fails, and the temporary file takes the place of the file
-- all the same.
abbrev full_disk : FdOstream (Bytes × ℕ)
full_disk = record { fd = ([], 3); rc = pos 0; tmpfile = true; standard = false; buffer = busy }

full_disk_test :
    (fdo_flush disk_write full_disk).1 ≡ neg 28
    × (fdo_close disk_write full_disk (pos 0)).rc ≡ pos 0
    × (fdo_close disk_write full_disk (pos 0)).tmp ≡ tmp_action disk_write true (pos 0)
unfolding fdo_flush fdo_close safe_write safe_write_loop
full_disk_test = (refl, refl, refl)

closed_after_writes_example :
    ((fdo_close disk_write full_disk (pos 0)).rc ≡ pos 0)
    × ((fdo_close disk_write full_disk (pos 0)).tmp ≡ tmp_action disk_write true (pos 0))
    × ((ltb_ℤ (fdo_flush disk_write full_disk).1 (pos 0) ≡ true)
        ⊎ (on_disk (fdo_close disk_write full_disk (pos 0)).fd ≡ [] ++ concat (busy ∷ [])))
closed_after_writes_example =
    closed_after_writes disk_write on_disk disk_write-IsWrite (busy ∷ []) ([], 3) true false
      full_disk (unfold writes fdo_write in refl)

abbrev requests : List Request
requests =
    user (codes "root") 65534
    ∷ user (codes "root") 65534
    ∷ reset none none
    ∷ user (codes "root") 65534
    ∷ group_of (codes "wheel") 7
    ∷ []

abbrev passwd : Option (List (Bytes × ℕ))
passwd = some ((codes "bin", 1) ∷ (codes "root", 0) ∷ [])

answers-id_cache_init_example :
    answers requests passwd none id_cache_init ≡ answers_of_files requests passwd none
answers-id_cache_init_example =
    answers-id_cache_init requests passwd none
      (unfold HasShortName c_string in
        (omega arith, (omega arith, (tt, (omega arith, (omega arith, tt))))))
      (unfold resets in omega arith)

answers_test : answers_of_files requests passwd none ≡ 0 ∷ 0 ∷ 65534 ∷ 7 ∷ []
unfolding answers_of_files scan c_string bytes_eq
answers_test = refl

-- A stream that fails after 2048 bytes: the error -EIO is subtracted from them.
abbrev failing : ℕ → ℕ → ℕ × ℤ × Bytes
failing zero size = (1, pos size, [])
failing (suc n) size = (suc n, neg 5, [])

skip_failing_test : (istream_skip failing 0 4096).1 ≡ 2043
unfolding istream_skip skip_loop
skip_failing_test = refl

-- A descriptor that takes all bytes, and one on a full disk.
abbrev write_all : Bytes → Bytes → ℕ → Bytes × ℤ
write_all done b count = (done ++ b, pos (length b))

abbrev write_none : Bytes → Bytes → ℕ → Bytes × ℤ
write_none done b count = (done, neg 28)

abbrev no_store : Bytes → ℕ → Bytes → Bytes
no_store done offset b = done

-- ftruncate fails, as it does for a pipe.
abbrev not_truncated : Bytes → ℕ → Bytes × Bool
not_truncated done size = (done, false)

istream_splice-Copies_example :
    Copies
      (fdi_read trickle seek (pos 0))
      write_all
      no_store
      rest_of
      (λ s. s)
      trickle-IsFull
      12
      lines_stream
      []
      0
      (istream_splice
        (fdi_read trickle seek (pos 0))
        write_all
        no_store
        not_truncated
        true
        lines_stream
        []
        12)
istream_splice-Copies_example =
    istream_splice-Copies (fdi_read trickle seek (pos 0)) write_all no_store rest_of (λ s. s)
      trickle-IsFull not_truncated true lines_stream [] 12 (omega arith) refl
      (λ f b. record { result = refl; appended = refl })

istream_splice_ignores_errors_example :
    (istream_splice
      (fdi_read trickle seek (pos 0))
      write_none
      no_store
      not_truncated
      true
      lines_stream
      []
      12).2
    ≡ 12
istream_splice_ignores_errors_example =
    istream_splice_ignores_errors (fdi_read trickle seek (pos 0)) write_none no_store rest_of
      (λ s. s) trickle-IsFull not_truncated true lines_stream [] 12 (omega arith)
      (unfold text in omega arith) (λ e. absurd (ground (arith, e)))

abbrev write_bytes : Bytes → Bytes → Bytes × ℤ
write_bytes done b = (done ++ b, pos (length b))

read_all-tee_read_example :
    Tees mmap_read write_bytes
      (λ s. s)
      (codes "x")
      1
      (record { left = no_bytes (pos 0); eof = true })
      (two_lines ++ [] ∷ [])
      (read_all
        (tee_read mmap_read write_bytes)
        4
        (start mmap_read write_bytes (λ s. s) (from_file (text 10 two_lines [])) (codes "x") 1)
        (some (10, [])))
read_all-tee_read_example =
    read_all-tee_read mmap_read write_bytes (λ s. s)
      (λ fd b. record { result = refl; appended = refl }) 4 (from_file (text 10 two_lines []))
      (record { left = no_bytes (pos 0); eof = true }) (two_lines ++ [] ∷ []) (codes "x") 1
      (some (10, [])) (read_all-from_file 10 two_lines [] 4 (ground arith) tt (omega arith))
