-- ===== src/Blob/Tests.antt =====
-- Runs of the blob functions on concrete texts, and the theorems at concrete inputs.
use am_linux_terminal_robot.Common.{
  ℕ, ◌≡◌, refl, Option, some, none, List, [], ◌∷◌, ◌++◌, Bytes, codes, ℤ, arith, drop,
}
use am_linux_terminal_robot.Blob.Scan.{compare, for_each_segment}
use am_linux_terminal_robot.Blob.Push.{Out, dx, b64_chunks, b64_needed}
use am_linux_terminal_robot.Blob.Pull.{decode64, pull_hexdump, pull_base64, b64_loop}
use am_linux_terminal_robot.Blob.Checksum.{Checksum}
use am_linux_terminal_robot.Blob.Segments.{fields, run_all, for_each_segment-run_all}
use am_linux_terminal_robot.Blob.Hex.{pull_hexdump_past_end}
use am_linux_terminal_robot.Blob.Base64.{pull_base64-b64_chunks, pull_base64_ignores_errors}
use am_linux_terminal_robot.Blob.Checksums.{IsData}

abbrev path : Bytes
path = codes "usr/lib/apk"

-- A callback that gathers the fields and stops at the field `x`.
gather : List Bytes → Bytes → List Bytes × ℤ
gather s f = (s ++ (f ∷ []), compare f (codes "x"))

for_each_segment-run_all_example :
    for_each_segment gather b'/' [] [] path ≡ some (run_all gather [] (fields b'/' path))
for_each_segment-run_all_example = for_each_segment-run_all gather b'/' [] path

abbrev two : Bytes
two = 10 ∷ 255 ∷ []

abbrev out : Option Out
out = some (record { written = []; room = 16 })

pull_hexdump_past_end_example : pull_hexdump (some (codes "0a")) (0 ∷ 0 ∷ []) ≡ none
unfolding dx
pull_hexdump_past_end_example =
    pull_hexdump_past_end (codes "0a") (0 ∷ 0 ∷ []) (ground arith, (ground arith, tt)) (omega arith)
      (omega arith)

pull_base64-b64_chunks_example :
    pull_base64 (some (b64_chunks two 7 ++ codes "\n")) (0 ∷ 0 ∷ []) ≡ (two, some (codes "\n"))
pull_base64-b64_chunks_example =
    pull_base64-b64_chunks two 7 (0 ∷ 0 ∷ []) (codes "\n") (omega arith, (omega arith, tt))
      (omega arith) refl

pull_base64_ignores_errors_example :
    pull_base64 (some (b'?' ∷ b'A' ∷ b'A' ∷ b'A' ∷ codes "AAAA")) (1 ∷ 2 ∷ 3 ∷ 4 ∷ [])
    ≡ (1 ∷ 2 ∷ 3 ∷ b64_loop (codes "AAAA") (4 ∷ []), some (drop (b64_needed 1) (codes "AAAA")))
unfolding decode64
pull_base64_ignores_errors_example =
    pull_base64_ignores_errors b'?' b'A' b'A' b'A' (codes "AAAA") 1 2 3 (4 ∷ []) refl (omega arith)

abbrev zeros : Bytes
zeros = 0 ∷ 0 ∷ 0 ∷ 0 ∷ 0 ∷ 0 ∷ 0 ∷ 0 ∷ 0 ∷ 0 ∷ 0 ∷ 0 ∷ 0 ∷ 0 ∷ 0 ∷ 0 ∷ 0 ∷ 0 ∷ 0 ∷ 0 ∷ []

zeros-IsData : (type : ℕ) → IsData (record { data_bytes = zeros; type = type })
zeros-IsData type = record { size = refl; all_bytes = (ground arith) }

abbrev csum : ℕ → Checksum
csum type = record { data_bytes = zeros; type = type }

abbrev room : Out
room = record { written = []; room = 64 }
