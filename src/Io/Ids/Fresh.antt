-- ===== src/Io/Ids/Fresh.antt =====
-- About apk_resolve_uid, apk_resolve_gid and apk_id_cache_reset of apk-tools/src/io.c over a time in
-- which the files of users and groups change, with a reset after each change.
use am_linux_terminal_robot.Common.{
  ℕ, zero, suc, ◌+◌, ◌-◌, ◌%◌, ◌^◌, ◌<◌, ◌≡◌, ◌≢◌, refl, sym, ap, ◌∙◌, Option, none, some, List, [],
  ◌∷◌, Bytes, All, arith, get_or,
}
use am_linux_terminal_robot.Blob.Scan.{c_string, hash}
use am_linux_terminal_robot.Hash.{get_hashed, find, init, replicate_nil}
use am_linux_terminal_robot.Io.Ids.{
  CacheItem, Cache, IdCache, id_hash_ops, resolve_cache_item, scan, scan_file, refreshed,
  or_default, resolve, resolve_uid, resolve_gid, id_cache_init, id_cache_reset, empty_cache,
}
use am_linux_terminal_robot.Io.Ids.Cached.{
  IsShort, IsCached, lookup, resolve_cache_item-Holds, refreshed-IsCached,
}

c_string_twice : (s : Bytes) → c_string (c_string s) ≡ c_string s
unfolding c_string
c_string_twice [] = refl
c_string_twice (x ∷ s) = ground (arith, c_string_twice s)

scan-c_string :
    (entries : List (Bytes × ℕ)) (name : Bytes) → scan entries (c_string name) ≡ scan entries name
unfolding scan
scan-c_string [] name = refl
scan-c_string ((pw_name, pw_uid) ∷ entries) name =
    rw (c_string_twice name, scan-c_string entries name) refl

abbrev pub File : Type 0
File = Option (List (Bytes × ℕ))

scan_file-c_string :
    (file : File) (name : Bytes) → scan_file file (c_string name) ≡ scan_file file name
scan_file-c_string none name = refl
scan_file-c_string (some entries) name = scan-c_string entries name

-- The id of a name without a cache.
abbrev pub id_in : File → Bytes → ℕ → ℕ
id_in file name default_id = or_default (scan_file file name) default_id

refreshed_text :
    (genid : ℕ) (file : File) (name : Bytes) (r : Cache × CacheItem)
    → refreshed genid file (c_string name) r ≡ refreshed genid file name r
refreshed_text genid file name (c, ci) = rw (scan_file-c_string file name) refl

resolve-IsCached :
    (genid : ℕ) (c : Cache) (file : File) (name : Bytes) (default_id : ℕ)
    → IsCached genid file c
    → 0 < genid
    → IsShort (c_string name)
    → IsCached genid file (resolve genid c file name default_id).0
      × ((resolve genid c file name default_id).1 ≡ id_in file name default_id)
unfolding resolve
resolve-IsCached genid c file name default_id k positive s =
    rw (sym (refreshed_text genid file name (resolve_cache_item c (c_string name))))
      (after.0, ap (λ i. or_default i default_id) (after.1 ∙ scan_file-c_string file name))
  where
    after :
        IsCached genid file
          (refreshed genid file (c_string name) (resolve_cache_item c (c_string name))).0
        × ((refreshed genid file (c_string name) (resolve_cache_item c (c_string name))).1
            ≡ scan_file file (c_string name))
    after =
        refreshed-IsCached genid file (c_string name) (resolve_cache_item c (c_string name))
          (resolve_cache_item-Holds genid file c (c_string name) k positive s)

-- Both caches hold what the files say.
pub record IsFresh (passwd group : File) (idc : IdCache) : Type 0 where
  pub positive : 0 < idc.genid
  pub users : IsCached idc.genid passwd idc.uid_cache
  pub groups : IsCached idc.genid group idc.gid_cache

outdated :
    (genid genid' : ℕ) (file file' : File) (c : Cache)
    → genid < genid'
    → IsCached genid file c
    → IsCached genid' file' c
outdated genid genid' file file' c l k = record {
  buckets = k.buckets;
  interned = k.interned;
  no_newer = λ b ci q. omega (arith, k.no_newer b ci q, l);
  current = λ b ci q e. absurd (omega (arith, k.no_newer b ci q, l, e));
}

next_genid : (idc : IdCache) → idc.genid + 1 < 2 ^ 32 → (id_cache_reset idc).genid ≡ idc.genid + 1
unfolding id_cache_reset
next_genid idc l = rw small (ground arith)
  where
    small : (idc.genid + 1) % 2 ^ 32 ≡ idc.genid + 1
    small = omega (arith, l)

reset-IsFresh :
    (passwd group passwd' group' : File) (idc : IdCache)
    → idc.genid + 1 < 2 ^ 32
    → IsFresh passwd group idc
    → IsFresh passwd' group' (id_cache_reset idc)
unfolding id_cache_reset
reset-IsFresh passwd group passwd' group' idc l f = record {
  positive = omega (arith, next_genid idc l);
  users = outdated idc.genid (id_cache_reset idc).genid passwd passwd' idc.uid_cache later f.users;
  groups = outdated idc.genid (id_cache_reset idc).genid group group' idc.gid_cache later f.groups;
}
  where
    later : idc.genid < (id_cache_reset idc).genid
    later = omega (arith, next_genid idc l)

no_buckets : (n i : ℕ) → get_or (replicate_nil {A = CacheItem} n) i [] ≡ []
no_buckets zero i = refl
no_buckets (suc n) zero = refl
no_buckets (suc n) (suc i) = no_buckets n i

nothing : (b : Bytes) (ci : CacheItem) → lookup empty_cache b ≢ some ci
unfolding get_hashed find init
nothing b ci e = cc (ap (find id_hash_ops b) (no_buckets 256 (hash b % 256)), e)

empty-IsCached : (genid : ℕ) (file : File) → IsCached genid file empty_cache
unfolding init
empty-IsCached genid file = record {
  buckets = omega arith;
  interned = record {
    ids_below = λ b ci e. absurd (nothing b ci e);
    ids_apart = λ b b' ci ci' e f i. absurd (nothing b ci e);
  };
  no_newer = λ b ci e. absurd (nothing b ci e);
  current = λ b ci e. absurd (nothing b ci e);
}

init-IsFresh : (passwd group : File) → IsFresh passwd group id_cache_init
unfolding id_cache_init
init-IsFresh passwd group = record {
  positive = omega arith;
  users = empty-IsCached 1 passwd;
  groups = empty-IsCached 1 group;
}

-- What a client asks for. At a reset the files have got new contents.
pub data Request : Type 0 where
  user : Bytes → ℕ → Request
  group_of : Bytes → ℕ → Request
  reset : File → File → Request

-- The ids that the requests get, one for each user or group that is asked for.
unfoldable pub answers : List Request → File → File → IdCache → List ℕ
answers [] passwd group idc = []
answers (user name default_id ∷ rs) passwd group idc =
    let (idc1, id) = resolve_uid idc passwd name default_id in id ∷ answers rs passwd group idc1
answers (group_of name default_id ∷ rs) passwd group idc =
    let (idc1, id) = resolve_gid idc group name default_id in id ∷ answers rs passwd group idc1
answers (reset passwd' group' ∷ rs) passwd group idc =
    answers rs passwd' group' (id_cache_reset idc)

-- The ids that they get without a cache, by a look into the file of the time.
unfoldable pub answers_of_files : List Request → File → File → List ℕ
answers_of_files [] passwd group = []
answers_of_files (user name default_id ∷ rs) passwd group =
    id_in passwd name default_id ∷ answers_of_files rs passwd group
answers_of_files (group_of name default_id ∷ rs) passwd group =
    id_in group name default_id ∷ answers_of_files rs passwd group
answers_of_files (reset passwd' group' ∷ rs) passwd group = answers_of_files rs passwd' group'

unfoldable pub resets : List Request → ℕ
resets [] = 0
resets (user name default_id ∷ rs) = resets rs
resets (group_of name default_id ∷ rs) = resets rs
resets (reset passwd' group' ∷ rs) = suc (resets rs)

unfoldable pub HasShortName : Request → Type 0
HasShortName (user name default_id) = IsShort (c_string name)
HasShortName (group_of name default_id) = IsShort (c_string name)
HasShortName (reset passwd' group') = Unit

answers_lem :
    (rs : List Request) (passwd group : File) (idc : IdCache)
    → IsFresh passwd group idc
    → All HasShortName rs
    → idc.genid + resets rs < 2 ^ 32
    → answers rs passwd group idc ≡ answers_of_files rs passwd group
unfolding answers answers_of_files resets resolve_uid resolve_gid HasShortName
answers_lem [] passwd group idc f s l = refl
answers_lem (user name default_id ∷ rs) passwd group idc f (s, ss) l =
    let r = resolve-IsCached idc.genid idc.uid_cache passwd name default_id f.users f.positive s in
    rw
      (
        r.1,
        answers_lem rs passwd group (resolve_uid idc passwd name default_id).0
            (record { positive = f.positive; users = r.0; groups = f.groups }) ss l,
      )
      refl
answers_lem (group_of name default_id ∷ rs) passwd group idc f (s, ss) l =
    let r = resolve-IsCached idc.genid idc.gid_cache group name default_id f.groups f.positive s in
    rw
      (
        r.1,
        answers_lem rs passwd group (resolve_gid idc group name default_id).0
            (record { positive = f.positive; users = f.users; groups = r.0 }) ss l,
      )
      refl
answers_lem (reset passwd' group' ∷ rs) passwd group idc f (s, ss) l =
    answers_lem rs passwd' group' (id_cache_reset idc)
      (reset-IsFresh passwd group passwd' group' idc (omega (arith, l)) f) ss
      (omega (arith, l, next_genid idc (omega (arith, l))))

-- From a new cache, requests for ids of users and groups get the ids that a look into the file of
-- the time of each request gives, where the cache is reset after each change of the files, there are
-- fewer than 2 ^ 32 - 1 resets, and the names have fewer than 2 ^ 16 bytes.
pub answers-id_cache_init :
    (rs : List Request) (passwd group : File)
    → All HasShortName rs
    → resets rs < 2 ^ 32 - 1
    → answers rs passwd group id_cache_init ≡ answers_of_files rs passwd group
unfolding id_cache_init
answers-id_cache_init rs passwd group s l =
    answers_lem rs passwd group id_cache_init (init-IsFresh passwd group) s (omega (arith, l))
