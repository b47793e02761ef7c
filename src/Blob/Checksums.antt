-- ===== src/Blob/Checksums.antt =====
-- About `apk_blob_push_csum` and `apk_blob_pull_csum` of apk-tools/src/blob.c, one after the other.
use am_linux_terminal_robot.Common.{
  ℕ, suc, ◌≡◌, refl, sym, ap, ◌∙◌, Option, none, some, [], ◌∷◌, ◌++◌, Bytes, codes, length, All,
  All-take, take, drop, arith, append_assoc, append-nil, ◌≤◌, zero, ◌/◌, ◌%◌,
}
use am_linux_terminal_robot.Blob.Push.{
  Out, dx, hex_digits, b64_chunks, push_hexdump, push_base64, push_blob,
}
use am_linux_terminal_robot.Blob.Pull.{pull_hexdump}
use am_linux_terminal_robot.Blob.Hex.{IsByte, pull_hexdump-hex_digits, dx-xd}
use am_linux_terminal_robot.Blob.Base64.{pull_base64-b64_chunks}
use am_linux_terminal_robot.Blob.Buffer.{
  Pushes, push_blob-Pushes, push_base64-Pushes, push_hexdump-Pushes,
}
use am_linux_terminal_robot.Blob.Checksum.{
  Checksum, checksum_md5, checksum_sha1, push_csum, pull_csum, store,
}

pub take_all : (n : ℕ) (s : Bytes) → length s ≡ n → take n s ≡ s
take_all zero [] h = refl
take_all zero (x ∷ s) h = absurd (omega arith)
take_all (suc n) [] h = refl
take_all (suc n) (x ∷ s) h = rw (take_all n s (omega arith))

drop_all : (n : ℕ) (s : Bytes) → length s ≡ n → drop n s ≡ []
drop_all zero [] h = refl
drop_all zero (x ∷ s) h = absurd (omega arith)
drop_all (suc n) [] h = refl
drop_all (suc n) (x ∷ s) h = drop_all n s (omega arith)

pub length-take_le : (n : ℕ) (s : Bytes) → n ≤ length s → length (take n s) ≡ n
length-take_le zero s h = refl
length-take_le (suc n) [] h = absurd (omega arith)
length-take_le (suc n) (x ∷ s) h = omega (arith, length-take_le n s (omega arith))

-- The twenty bytes of a checksum.
pub record IsData (c : Checksum) : Type 0 where
  pub size : length c.data_bytes ≡ 20
  pub all_bytes : All IsByte c.data_bytes

abbrev pub sha1_text : Checksum → Bytes
sha1_text c = codes "Q1" ++ b64_chunks (take 20 c.data_bytes) 20

push_sha1 :
    (c : Checksum) (to : Option Out)
    → c.type ≡ checksum_sha1
    → push_csum to c ≡ push_base64 (push_blob to (codes "Q1")) (take 20 c.data_bytes) 20
unfolding push_csum
push_sha1 c to h = rw h

two-Pushes :
    (o o' : Out) (to1 to2 : Option Out) (s t : Bytes)
    → Pushes (some o) s to1
    → Pushes to1 t to2
    → to2 ≡ some o'
    → o'.written ≡ o.written ++ (s ++ t)
two-Pushes o o' none to2 s t p q e = cc
two-Pushes o o' (some o1) none s t p q e = cc
two-Pushes o o' (some o1) (some o2) s t p q e = cc (append_assoc o.written s t)

pub pull_sha1_back :
    (s rest : Bytes) (old : Checksum)
    → All IsByte s
    → length s ≡ 20
    → length old.data_bytes ≡ 20
    → pull_csum (some ((codes "Q1" ++ b64_chunks s 20) ++ rest)) old
      ≡ some (record { data_bytes = s; type = 20 }, some rest)
unfolding pull_csum dx
pull_sha1_back s rest old h l k =
    rw
      (
        pull_base64-b64_chunks s 20 (take 20 old.data_bytes) rest h (omega arith)
            (length-take_le 20 old.data_bytes (omega arith) ∙ sym l),
        drop_all 20 old.data_bytes k,
        append-nil s,
      )
      refl

-- A SHA-1 checksum that a push has room for is written as a text that is pulled back as the
-- checksum into any checksum of twenty bytes, and the text behind it is left.
pub pull_csum-push_sha1 :
    (c old : Checksum) (o : Out) (rest : Bytes) {o' : Out}
    → c.type ≡ checksum_sha1
    → IsData c
    → length old.data_bytes ≡ 20
    → push_csum (some o) c ≡ some o'
    → (text : Bytes) × (o'.written ≡ o.written ++ text)
      × (pull_csum (some (text ++ rest)) old ≡ some (c, some rest))
pull_csum-push_sha1 c old o rest {o'} k d l e = (
  sha1_text c,
  two-Pushes o o' (push_blob (some o) (codes "Q1")) _ (codes "Q1") _
      (push_blob-Pushes (some o) (codes "Q1"))
      (push_base64-Pushes (push_blob (some o) (codes "Q1")) (take 20 c.data_bytes) 20)
      (sym (push_sha1 c (some o) k) ∙ e),
  rw (take_all 20 c.data_bytes d.size)
      (pull_sha1_back c.data_bytes rest old d.all_bytes d.size l ∙ ground arith),
)

-- A text that begins with a hexadecimal digit is taken for an MD5 sum.
pull_csum_hex :
    (c d v : ℕ) (s : Bytes) (old : Checksum)
    → dx c ≡ some v
    → pull_csum (some (c ∷ d ∷ s)) old
      ≡ store 16 old.data_bytes (pull_hexdump (some (c ∷ d ∷ s)) (take 16 old.data_bytes))
unfolding pull_csum
pull_csum_hex c d v s old h = rw (h, pull_csum)

pull_md5_back :
    (s rest : Bytes) (old : Checksum)
    → All IsByte s
    → length s ≡ 16
    → length old.data_bytes ≡ 20
    → pull_csum (some (hex_digits s ++ rest)) old
      ≡ some (record { data_bytes = s ++ drop 16 old.data_bytes; type = 16 }, some rest)
unfolding hex_digits
pull_md5_back [] rest old h l k = absurd (omega arith)
pull_md5_back (x ∷ s) rest old h l k =
    pull_csum_hex _ _ _ _ old (dx-xd (x / 16 % 16) (omega arith))
    ∙ ap (store 16 old.data_bytes) (
        pull_hexdump-hex_digits (x ∷ s) (take 16 old.data_bytes) rest h
          (length-take_le 16 old.data_bytes (omega arith) ∙ sym l))

push_md5 :
    (c : Checksum) (to : Option Out)
    → c.type ≡ checksum_md5
    → push_csum to c ≡ push_hexdump to (take 16 c.data_bytes)
unfolding push_csum
push_md5 c to h = rw h

one_push :
    (o o' : Out) (to : Option Out) (s : Bytes)
    → Pushes (some o) s to
    → to ≡ some o'
    → o'.written ≡ o.written ++ s
one_push o o' none s p e = cc
one_push o o' (some o1) s p e = cc

-- An MD5 checksum that a push has room for is written as a text that is pulled back as its sixteen
-- bytes into any checksum of twenty bytes, whose last four are kept; the text behind it is left.
pub pull_csum-push_md5 :
    (c old : Checksum) (o : Out) (rest : Bytes) {o' : Out}
    → c.type ≡ checksum_md5
    → IsData c
    → length old.data_bytes ≡ 20
    → push_csum (some o) c ≡ some o'
    → (text : Bytes) × (o'.written ≡ o.written ++ text)
      × (pull_csum (some (text ++ rest)) old
          ≡ some (
            record {
              data_bytes = take 16 c.data_bytes ++ drop 16 old.data_bytes;
              type = checksum_md5;
            },
            some rest,
          ))
pull_csum-push_md5 c old o rest {o'} k d l e = (
  hex_digits (take 16 c.data_bytes),
  one_push o o' (push_hexdump (some o) (take 16 c.data_bytes)) _
      (push_hexdump-Pushes (some o) (take 16 c.data_bytes)) (sym (push_md5 c (some o) k) ∙ e),
  pull_md5_back (take 16 c.data_bytes) rest old (All-take IsByte 16 c.data_bytes d.all_bytes)
      (length-take_le 16 c.data_bytes (omega (arith, d.size))) l,
)
