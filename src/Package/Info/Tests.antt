-- ===== src/Package/Info/Tests.antt =====
-- The theorems on the fields of a package at concrete inputs.
use am_linux_terminal_robot.Common.{
  ◌≡◌, refl, none, true, arith, some, [], ◌∷◌, Bytes, codes, false,
}
use am_linux_terminal_robot.Names.{Name, NameTable, query_name}
use am_linux_terminal_robot.Blob.Scan.{c_string, cstr, compare, memcmp, hash, hash_seed}
use am_linux_terminal_robot.Blob.Pieces.{collect}
use am_linux_terminal_robot.Package.Dependency.{Dependency}
use am_linux_terminal_robot.Blob.Pull.{pull_uint}
use am_linux_terminal_robot.Blob.Checksum.{checksum_sha1, push_csum}
use am_linux_terminal_robot.Package.Signature.{nulls}
use am_linux_terminal_robot.Package.Info.Index.{index_text, write_depends, write_index_entry}
use am_linux_terminal_robot.Package.Info.Entry.{
  entry_bytes, entry_result, write_index_entry-entry_bytes,
}
use am_linux_terminal_robot.Package.Info.{
  InfoCtx, Package, null_file, new_package, parse_index_entry,
}
use am_linux_terminal_robot.Package.Info.RoundTrip.{
  IsEntry, read_back, parse_index_entry-write_index_entry,
}
use am_linux_terminal_robot.Blob.Push.{
  push_blob, push_base64, push_uint, b64_chunks, push_b64_chunk, pushed, uint_digits,
}
use am_linux_terminal_robot.Hash.{get, get_hashed, find, is_match}

abbrev zlib : Name
zlib = record { name = codes "zlib"; id = 0 }

abbrev names : NameTable
names = record { names = record { buckets = (zlib ∷ []) ∷ []; num_items = 1 }; name_id = 1 }

abbrev empty : InfoCtx
empty = record {
  pkg = new_package;
  names = names;
  compat_notinstallable = false;
  compat_newfeatures = false;
}

abbrev on_musl : Dependency
on_musl = record { name = record { name = codes "musl"; id = 1 }; result_mask = 7; version = none }

abbrev zlib_package : Package
zlib_package = record {
  name = some zlib;
  version = some (codes "1.2-r3");
  arch = none;
  url = none;
  description = some (codes "a library");
  license = some (codes "zlib");
  depends = on_musl ∷ [];
  installed_size = 4096;
  size = 52;
  filename = null_file;
  csum = record { data_bytes = nulls 20; type = checksum_sha1 };
}

write_index_entry-entry_bytes_example :
    (size : Bytes) × (installed : Bytes) × (pull_uint (some size) 10 ≡ (52, some []))
    × (pull_uint (some installed) 10 ≡ (4096, some []))
    × ((os : Bytes)
        → write_index_entry collect zlib_package zlib true os
          ≡ entry_result os (entry_bytes zlib_package zlib true size installed) (on_musl ∷ []))
unfolding c_string
write_index_entry-entry_bytes_example =
    write_index_entry-entry_bytes zlib_package zlib true refl (omega arith) (omega arith)
      (omega arith, tt)

-- The package as it is parsed, with no dependency.
abbrev plain_package : Package
plain_package = record zlib_package {
  version = some (cstr (codes "1.2-r3"));
  description = some (cstr (codes "a library"));
  license = some (cstr (codes "zlib"));
  depends = [];
}

zlib_found : query_name names (codes "zlib") ≡ some zlib
unfolding query_name get get_hashed find is_match compare memcmp hash hash_seed c_string
zlib_found = refl

plain_package-IsEntry : IsEntry plain_package zlib names
unfolding c_string
plain_package-IsEntry = record {
  named = refl;
  found_name = zlib_found;
  some_name = omega arith;
  name_Lacks = ground arith;
  sha1 = refl;
  csum_data = record { size = refl; all_bytes = ground arith };
  version = (codes "1.2-r3", refl, omega arith, (ground arith, ground arith));
  arch = tt;
  description = (codes "a library", refl, omega arith, (ground arith, ground arith));
  url = tt;
  license = (codes "zlib", refl, omega arith, (ground arith, ground arith));
  small_size = omega arith;
  small_installed = omega arith;
  no_depends = refl;
  no_file = refl;
}

abbrev plain_text : Bytes
plain_text = (write_index_entry collect plain_package zlib true []).0

parse_index_entry-write_index_entry_example :
    parse_index_entry empty plain_text ≡ read_back plain_package empty true
unfolding write_index_entry index_text push_csum push_blob push_base64 push_uint b64_chunks
    push_b64_chunk pushed write_depends c_string cstr uint_digits
parse_index_entry-write_index_entry_example =
    parse_index_entry-write_index_entry plain_package zlib empty true plain_text
      plain_package-IsEntry refl
