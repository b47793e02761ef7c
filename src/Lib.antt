-- ===== src/Lib.antt =====
-- The core of apk-tools, the package manager that the robot's root image is built with, in
-- apk-tools/src: versions, blobs, the hash table, the names of packages, packages, the solver that
-- chooses what is installed, the archives that packages come in, the streams that all of this is read
-- from and written to, and the records of what is installed.
--
-- A blob, the string with a length of apk_blob.h, is the list of its bytes, and an Option of that
-- where the code tests for a null blob. A buffer that text is pushed into is what was written and the
-- room that is left, and none once a push had no room. A pointer into memory that is read past the end
-- of its blob is an explicit result, none. Memory is taken to suffice: an allocation gives no null
-- pointer, and what frees memory has no model. Machine words wrap: a version's number and the
-- counter of the names in 32 bits, a hash in 64, the length of a file's name and the number of a name's
-- candidates in 16; the bytes of the solver's state are counted in an `int`, with pointers of eight
-- bytes, and where that wraps there is no state. A `char` is signed.
--
--   Common          names passed on from the library; tests on numbers, byte strings, integers
--   Version         apk-tools/src/version.c. Version/Token has the tokens (next_token, get_token),
--                   Version/Compare the operators, apk_version_validate and apk_version_compare_blob;
--                   proofs in Version/Order, Version/Termination and Version/Operators
--   Blob            apk-tools/src/blob.c and apk_blob.h. Blob/Scan has cutting, comparing, hashing and
--                   apk_blob_for_each_segment, Blob/Push and Blob/Pull the text of numbers, hexadecimal
--                   and base 64, Blob/Checksum apk_blob_push_csum and apk_blob_pull_csum; proofs in
--                   Blob/Splitting, Segments, Buffer, Pieces, Plain, Numbers, Hex, Base64, Checksums
--                   and Order
--   Hash            apk-tools/src/hash.c and apk_hash.h. Hash/Defs has the operations over the record of
--                   the client's functions, HashOps; proofs in Hash/Lookup, and in Hash/Interning for
--                   tables whose items are made when they are missing
--   Names           apk-tools/src/database.c, the functions apk_db_query_name and apk_db_get_name over a
--                   hash table of names; proofs in Names/Interning
--   Package         apk-tools/src/package.c and apk_package.h. Package/Filename has apk_pkg_parse_name and
--                   the formats of file names, Package/Dependency the text and the list of
--                   dependencies, with proofs in the modules below them;
--                   Package/Signature and Package/Signature/Block the signature context and its
--                   callbacks apk_sign_ctx_process_file, apk_sign_ctx_parse_pkginfo_line,
--                   apk_sign_ctx_verify_tar and apk_sign_ctx_mpart_cb, Package/Info the fields of a
--                   package (apk_pkg_add_info, apk_pkg_parse_index_entry), Package/Info/Index and
--                   Package/Info/Pkginfo apk_pkg_write_index_entry and read_info_line, with proofs in
--                   Package/Info/Fields, Entry, Lines and RoundTrip, and in the modules below
--                   Package/Signature/Block
--   Files           apk-tools/src/database.c, the hashes and comparisons of the tables of packages,
--                   directories and files, apk_db_file_query and apk_db_file_get; proofs in Files/Lookup
--   State           apk-tools/src/state.c and apk_state.h, with apk_db_select_repo of database.c.
--                   State/Choices has the candidates of a name, State/Prune apk_state_prune_dependency,
--                   State/Lock apk_state_lock_dependency and apk_state_lock_name with what they call,
--                   State/Changes the kinds of changes, State/Clean apk_state_autoclean, State/Applets
--                   the loop of cache_download in cache.c, State/Packages apk_db_pkg_add and
--                   apk_db_pkg_rdepends of database.c, which build what the solver reads; proofs in the
--                   modules below them
--   Archive         apk-tools/src/archive.c. Archive has the header of a tar entry and how
--                   apk_tar_write_entry writes it, Archive/Parse how apk_tar_parse reads it and what it
--                   skips, Archive/Data tar_entry_read; proofs in Archive/Octal, Archive/Entry,
--                   Archive/Blocks and Archive/Data/Sums
--   Io              apk-tools/src/io.c. Io/Input has fdi_read and apk_istream_skip, Io/Splice
--                   apk_istream_splice, Io/Lines is_bs_read, mmap_read and tee_read, Io/Output
--                   fdo_write, fdo_flush and fdo_close, Io/Ids the cache of user and group ids; proofs
--                   in the modules below them
--   Installed       apk-tools/src/database.c. Installed/Scripts has the archive of scripts
--                   (apk_db_scriptdb_write, apk_read_script_archive_entry) with apk_ipkg_add_script
--                   of package.c, Installed/Triggers the file of triggers
--                   (apk_db_triggers_write, apk_db_triggers_read); proofs in the modules below them
--
-- The digests, the keys and the check of a signature are OpenSSL's: they are the fields of the record
-- Crypto, a parameter of Package/Signature. A digest reads all bytes that it was fed since it was
-- initialised. What apk_ostream.write does is a parameter too, and so are the system calls read, write,
-- lseek, close and ftruncate, whether mmap succeeds, and the entries of the files of users and groups. APK_ALLOW_UNTRUSTED, a flag of the
-- process, is an argument.
--
-- In the solver a pointer to a package is a number that the database maps to the package, and the state
-- of a name is a null pointer, a package with its bits, or choices. What faccessat finds in the cache
-- directory is the parameter `cached` of a database. In an archive, the stream that is read or written,
-- the ids that names resolve to and the digest are parameters; the device numbers are left out.
--
-- Names are looked up through a hash table, whose items are compared by apk_blob_compare; dependencies
-- use the names, the cuts of blobs and the validation of versions; the list of dependencies is read by
-- apk_blob_for_each_segment. The solver compares versions, and works on the packages and names that the
-- database has added. The records of installed packages are written through streams and buffers, and
-- read by lines, by checksums and through the table of packages.
--
-- The loops of version.c run on fuel, which is twice the number of bytes and two: a token that is read
-- takes a byte of its string, or lowers a rank that a byte raises by at most one. The loop of
-- apk_blob_for_each_segment has one round for each byte and one more, since a round with a field takes
-- the separator. The digits of a number have the 64 bytes of their buffer for fuel.
--
-- The loops that read and write a descriptor have a round for each byte at most, since a round that goes
-- on takes one. A client that reads lines has as many reads as it is given; a read for each line and
-- two more are enough.
--
-- The solver's calls run on fuel for their depth: twice the number of names and two, since a call locks
-- a name for good, and a name is locked to a package once and deleted once. Its candidates are removed
-- on fuel for each of them.
--
-- Not modelled: the loops that commit the solver's changes (apk-tools/src/state.c), the rest of the
-- database (database.c), the loop of apk_tar_parse and the files that are extracted (archive.c), what is
-- calls of the system one after another (io.c), the streams over zlib and from a URL (gunzip.c, url.c),
-- the rest of the applets, and the Lua binding.
pub mod Common
pub mod Version
pub mod Blob
pub mod Hash
pub mod Names
pub mod Files
pub mod Package
pub mod State
pub mod Archive
pub mod Io
pub mod Installed
