-- ===== src/Installed/Triggers/Whole.antt =====
-- About the whole file of triggers of apk-tools/src/database.c, as it is written and read.
use am_linux_terminal_robot.Common.{
  ℕ, zero, suc, ◌+◌, ◌≤◌, ◌≡◌, ◌≢◌, refl, sym, ap, ◌∙◌, true, Option, some, List, [], ◌∷◌, Bytes,
  map, length, All, arith, pos,
}
use am_linux_terminal_robot.Blob.Checksum.{Checksum, checksum_sha1, csum_blob}
use am_linux_terminal_robot.Blob.Checksums.{IsData}
use am_linux_terminal_robot.Files.{pkg_info_ops}
use am_linux_terminal_robot.Hash.{Hash, get}
use am_linux_terminal_robot.Io.Lines.{no_bytes, MmapBstream, mmap_read, from_file}
use am_linux_terminal_robot.Io.Lines.Cuts.{text, split-text, split-Lacks}
use am_linux_terminal_robot.Installed.Triggers.{
  TriggerDb, triggers_of, with_triggers, triggers_read,
}
use am_linux_terminal_robot.Installed.Triggers.Lines.{
  IsTrigger, allocated, line_of, line_of-Lacks, read_line-line_of,
}
use am_linux_terminal_robot.Installed.Triggers.RoundTrip.{put-same, put-other, empty_line}

-- A package with its triggers.
abbrev pub Entry : Type 0
Entry = Checksum × List Bytes

abbrev pub key_of : Entry → Bytes
key_of p = csum_blob p.0

-- The table finds the package under its SHA-1 checksum.
pub record IsPackage (packages : Hash Checksum) (p : Entry) : Type 0 where
  pub sha1 : p.0.type ≡ checksum_sha1
  pub all_bytes : IsData p.0
  pub all_triggers : All IsTrigger p.1
  pub found : get pkg_info_ops packages (key_of p) ≡ some p.0

abbrev pub HasNone : TriggerDb → Entry → Type 0
HasNone db p = triggers_of db.installed (key_of p) ≡ some []

abbrev pub AreApart : List Entry → Type 0
AreApart [] = Unit
AreApart (p ∷ ps) = All (λ q. key_of q ≢ key_of p) ps × AreApart ps

abbrev pub lines : List Entry → List Bytes
lines [] = []
lines (p ∷ ps) = line_of p.0 p.1 ∷ lines ps

-- The file has been read: each package of the file has its triggers, and the others what they had.
pub record Restored (db : TriggerDb) (ps : List Entry) (o : Option (MmapBstream × TriggerDb))
    : Type 0 where
  pub to : MmapBstream × TriggerDb
  pub reads : o ≡ some to
  pub others :
      (key : Bytes)
      → All (λ p. key_of p ≢ key) ps
      → triggers_of to.1.installed key ≡ triggers_of db.installed key
  pub own : All (λ p. triggers_of to.1.installed (key_of p) ≡ some (map allocated p.1)) ps

read_end :
    (fuel : ℕ) (db : TriggerDb) (old : Checksum)
    → Restored db [] (triggers_read mmap_read (suc (suc fuel)) (from_file []) db old)
unfolding triggers_read mmap_read
read_end fuel db old =
    let s = empty_line db old in
    record {
      to = (record { left = no_bytes (pos 0); eof = true }, s.to.0);
      reads = rw (split-Lacks b'\n' [] tt, s.reads) refl;
      others = λ key _. ap (λ i. triggers_of i key) s.same;
      own = tt;
    }

after_first :
    (db : TriggerDb) (p : Entry) (ps : List Entry)
    → All (λ q. key_of q ≢ key_of p) ps
    → All (HasNone db) ps
    → All (HasNone (with_triggers db (key_of p) (map allocated p.1))) ps
unfolding with_triggers
after_first db p [] d h = tt
after_first db p (q ∷ ps) (d, ds) (h, hs) = (
  put-other (key_of p) (map allocated p.1) db.installed (key_of q) (λ e. d (sym e)) ∙ h,
  after_first db p ps ds hs,
)

pub read_lines :
    (ps : List Entry) (fuel : ℕ) (db : TriggerDb) (old : Checksum)
    → length ps + 2 ≤ fuel
    → length old.data_bytes ≡ 20
    → All (IsPackage db.packages) ps
    → All (HasNone db) ps
    → AreApart ps
    → Restored db ps (triggers_read mmap_read fuel (from_file (text b'\n' (lines ps) [])) db old)
unfolding triggers_read mmap_read text with_triggers
read_lines [] (suc (suc fuel)) db old enough e ks ns d = read_end fuel db old
read_lines (p ∷ ps) (suc fuel) db old enough e (k, ks) (n, ns) (d, ds) =
    let rest = text b'\n' (lines ps) [] in
    let db1 = with_triggers db (key_of p) (map allocated p.1) in
    let r =
      read_lines ps fuel db1 p.0 (omega (arith, enough)) k.all_bytes.size ks
        (after_first db p ps d ns) ds in
    record {
      to = r.to;
      reads =
          rw
            (
              split-text b'\n' (line_of p.0 p.1) rest
                  (line_of-Lacks p.0 p.1 k.all_bytes k.all_triggers),
              read_line-line_of db old p.0 p.0 p.1 [] k.sha1 k.all_bytes e k.all_triggers k.found n,
            )
            r.reads;
      others = λ key (o, os).
          r.others key os ∙ put-other (key_of p) (map allocated p.1) db.installed key o;
      own = (r.others (key_of p) d ∙ put-same (key_of p) (map allocated p.1) db.installed n, r.own);
    }
read_lines ps zero db old enough e ks ns d = absurd (omega (arith, enough))
read_lines [] (suc zero) db old enough e ks ns d = absurd (omega (arith, enough))
