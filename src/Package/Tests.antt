-- ===== src/Package/Tests.antt =====
-- Runs on the names of package files and on dependencies, and the theorems at concrete inputs.
use am_linux_terminal_robot.Common.{
  ◌≡◌, refl, some, none, List, [], ◌∷◌, ◌++◌, Bytes, codes, starts_with, arith,
}
use am_linux_terminal_robot.Blob.Scan.{cstr, c_string, hash, hash_seed, compare, memcmp, in_set}
use am_linux_terminal_robot.Blob.Push.{Out, push_blob}
use am_linux_terminal_robot.Version.Compare.{validate, validate_loop, op_string}
use am_linux_terminal_robot.Version.Token.{
  get_token, read_token, read_number, read_zeros, zeros, number, find_suffix, next_token, next_raw,
}
use am_linux_terminal_robot.Hash.{get, get_hashed, find, is_match}
use am_linux_terminal_robot.Names.{Name, NameTable, query_name}
use am_linux_terminal_robot.Package.Filename.{parse_name, scan_name}
use am_linux_terminal_robot.Package.Filename.RoundTrip.{
  IsVersion, StartsWithDigit, parse_name_back, parse_name_sound,
}
use am_linux_terminal_robot.Package.Dependency.{Dependency, push_dep}
use am_linux_terminal_robot.Package.Dependency.Text.{compares, ReadsBack, dep_from_blob-push_dep}
use am_linux_terminal_robot.Package.Dependency.Lists.{Distinct}

abbrev version : Bytes
version = codes "1.2_rc1-r3"

version-IsVersion : IsVersion version
version-IsVersion = record {
  first = b'1';
  middle = codes ".2_rc1";
  revision = codes "-r3";
  whole = refl;
  first_digit = refl;
  middle_Lacks = ground arith;
  revision_IsRevision = (refl, refl, ground arith);
}

parse_name_back_example :
    parse_name (some (codes "gtk-2-doc" ++ b'-' ∷ version)) ≡ some (codes "gtk-2-doc", version)
parse_name_back_example = parse_name_back (codes "gtk-2-doc") version version-IsVersion

parse_name_sound_example :
    (codes "zlib-1.2" ≡ codes "zlib" ++ b'-' ∷ codes "1.2") × StartsWithDigit (codes "1.2")
unfolding parse_name scan_name
parse_name_sound_example = parse_name_sound (codes "zlib-1.2") refl

abbrev out : Out
out = record { written = []; room = 64 }

abbrev zlib : Name
zlib = record { name = codes "zlib"; id = 0 }

abbrev musl : Name
musl = record { name = codes "musl"; id = 1 }

abbrev needs : Name → Dependency
needs n = record { name = n; result_mask = 7; version = none }

abbrev deps : List Dependency
deps = needs zlib ∷ needs musl ∷ []

deps-Distinct : Distinct deps
deps-Distinct = ((ground arith, tt), (tt, tt))

abbrev table : NameTable
table = record { names = record { buckets = (zlib ∷ []) ∷ []; num_items = 1 }; name_id = 1 }

one_bucket : query_name table (codes "zlib") ≡ some zlib
unfolding query_name get get_hashed find is_match compare c_string memcmp hash hash_seed
one_bucket = refl

abbrev at_least : Dependency
at_least = record { name = zlib; result_mask = 5; version = some (cstr (codes "1.2-r3")) }

abbrev pushed_out : Out
pushed_out = record { written = codes "zlib>=1.2-r3"; room = 52 }

dep_from_blob-push_dep_example : ReadsBack table at_least out pushed_out
unfolding push_dep push_blob op_string c_string cstr in_set validate validate_loop get_token
    read_token read_number read_zeros zeros number find_suffix next_token next_raw starts_with
dep_from_blob-push_dep_example =
    dep_from_blob-push_dep table at_least out (ground arith) one_bucket
      (compares (omega arith) (omega arith) (codes "1.2-r3") (refl, refl) (ground arith) refl) refl
