-- ===== src/Blob/Pieces.antt =====
-- About texts that are pushed one after the other into a buffer of apk-tools/src/blob.c.
use am_linux_terminal_robot.Common.{
  ℕ, ◌≡◌, refl, sym, ◌∙◌, Option, none, some, List, [], ◌∷◌, ◌++◌, Bytes, codes, arith,
  append_assoc, append-nil, length-append, take, concat, length, ℤ, pos,
}
use am_linux_terminal_robot.Blob.Push.{Out, push_blob, push_base64, b64_chunks}
use am_linux_terminal_robot.Blob.Buffer.{length-b64_chunks}
use am_linux_terminal_robot.Blob.Checksum.{Checksum, checksum_sha1, csum_blob, push_csum}

-- A stream that takes all bytes that it is given.
abbrev pub collect : Bytes → Bytes → Bytes × ℤ
collect os d = (os ++ d, pos (length d))

-- Two pushes are one.
pub push_blob-push_blob :
    (to : Option Out) (a b : Bytes) → push_blob (push_blob to a) b ≡ push_blob to (a ++ b)
unfolding push_blob
push_blob-push_blob none a b = refl
push_blob-push_blob (some o) a b = ground (arith, length-append {0} a b, append_assoc o.written a b)

pub push_base64-push_blob :
    (to : Option Out) (s : Bytes) (next : ℕ)
    → push_base64 to s next ≡ push_blob to (b64_chunks s next)
unfolding push_base64 push_blob
push_base64-push_blob none s next = refl
push_base64-push_blob (some o) s next = rw (length-b64_chunks s next) refl

-- Texts that are pushed one after the other.
unfoldable pub push_all : Option Out → List Bytes → Option Out
push_all to [] = to
push_all to (p ∷ ps) = push_all (push_blob to p) ps

pub push_nothing : (to : Option Out) → push_blob to [] ≡ to
unfolding push_blob
push_nothing none = refl
push_nothing (some o) = rw (append-nil o.written) (ground arith)

pub push_all-concat :
    (to : Option Out) (ps : List Bytes) → push_all to ps ≡ push_blob to (concat ps)
unfolding push_all concat
push_all-concat to [] = sym (push_nothing to)
push_all-concat to (p ∷ ps) =
    push_all-concat (push_blob to p) ps ∙ push_blob-push_blob to p (concat ps)

pub csum_pushes :
    (to : Option Out) (c : Checksum)
    → c.type ≡ checksum_sha1
    → push_csum to c ≡ push_all to (codes "Q1" ∷ b64_chunks (csum_blob c) checksum_sha1 ∷ [])
unfolding push_csum push_all
csum_pushes to c h =
    rw h (push_base64-push_blob (push_blob to (codes "Q1")) (take 20 c.data_bytes) 20)
