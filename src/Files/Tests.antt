-- ===== src/Files/Tests.antt =====
-- The theorems on the tables of the database at concrete inputs.
use am_linux_terminal_robot.Common.{◌≡◌, refl, some, [], ◌∷◌, codes, arith}
use am_linux_terminal_robot.Blob.Scan.{hash}
use am_linux_terminal_robot.Hash.{Hash}
use am_linux_terminal_robot.Files.{Dir, File, FileKey, file_get, file_query}
use am_linux_terminal_robot.Files.Lookup.{file_query-file_get}

abbrev bin : Dir
bin = record { name = codes "usr/bin"; hash = hash (codes "usr/bin") }

abbrev apk : File
apk = record { name = codes "apk"; dir = bin }

abbrev files : Hash File
files = record { buckets = (apk ∷ []) ∷ [] ∷ []; num_items = 1 }

abbrev other : FileKey
other = record { dirname = codes "sbin"; filename = codes "apk" }

file_query-file_get_example :
    file_query
      (file_get (record { files = files; count = 1 }) bin (codes "sh") ([], [])).0.files
      (codes "usr/bin")
      (codes "sh")
    ≡ some (file_get (record { files = files; count = 1 }) bin (codes "sh") ([], [])).1
file_query-file_get_example =
    file_query-file_get (record { files = files; count = 1 }) bin (codes "sh") ([], []) refl
      (omega arith) (omega arith)
