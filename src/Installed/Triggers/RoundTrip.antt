-- ===== src/Installed/Triggers/RoundTrip.antt =====
-- About the file of triggers of apk-tools/src/database.c: what is written is read back.
use mathlib.Core.Option.{some-injective}
use am_linux_terminal_robot.Common.{
  ◌≡◌, ◌≢◌, refl, sym, ap, ◌∙◌, Option, none, some, List, [], ◌∷◌, Bytes, bytes_eq, bytes_eq→eq,
  Bool-cases, Option-cases, inl, inr, pos,
}
use am_linux_terminal_robot.Blob.Scan.{for_each_segment, segment_loop, split}
use am_linux_terminal_robot.Blob.Pull.{pull_char}
use am_linux_terminal_robot.Blob.Checksum.{Checksum, csum_blob, pull_csum}
use am_linux_terminal_robot.Files.{pkg_info_ops}
use am_linux_terminal_robot.Hash.{get}
use am_linux_terminal_robot.Hash.Interning.{no_match}
use am_linux_terminal_robot.Installed.Triggers.{
  TriggerDb, parse_triggers, triggers_of, put_triggers, with_triggers, for_package, for_installed,
  after_segments, read_line,
}

module _ (key : Bytes) (triggers : List Bytes) where
  pub put-same :
      (installed : List (Bytes × List Bytes)) {before : List Bytes}
      → triggers_of installed key ≡ some before
      → triggers_of (put_triggers installed key triggers) key ≡ some triggers
  unfolding triggers_of put_triggers
  put-same [] e = absurd (cc e)
  put-same ((k, old) ∷ rest) e = elim (Bool-cases (bytes_eq k key)) [
    | inl q ↦ rw q (rw q refl)
    | inr q ↦ rw q (rw q (put-same rest (rw q at e)))
  ]

  pub put-other :
      (installed : List (Bytes × List Bytes)) (other : Bytes)
      → key ≢ other
      → triggers_of (put_triggers installed key triggers) other ≡ triggers_of installed other
  unfolding triggers_of put_triggers
  put-other [] other d = refl
  put-other ((k, old) ∷ rest) other d = elim (Bool-cases (bytes_eq k key)) [
    | inl q ↦
        (let n =
            no_match {b = bytes_eq k other}
              (λ m. d (sym (bytes_eq→eq k key q) ∙ bytes_eq→eq k other m)) in
          rw q (rw n refl))
    | inr q ↦ rw q (elim (Bool-cases (bytes_eq k other)) [
      | inl m ↦ rw m refl
      | inr m ↦ rw m (put-other rest other d)
    ])
  ]

put_back :
    (installed : List (Bytes × List Bytes)) (key : Bytes) {triggers : List Bytes}
    → triggers_of installed key ≡ some triggers
    → put_triggers installed key triggers ≡ installed
unfolding triggers_of put_triggers
put_back [] key e = refl
put_back ((k, old) ∷ rest) key {triggers} e = elim (Bool-cases (bytes_eq k key)) [
  | inl q ↦ rw q (ap (λ t. (k, t) ∷ rest) (sym (some-injective old triggers (rw q at e))))
  | inr q ↦ rw q (ap (λ t. (k, old) ∷ t) (put_back rest key (rw q at e)))
]

-- An empty line changes no triggers.
pub record Skips (db : TriggerDb) (old : Checksum) (o : Option (TriggerDb × Checksum))
    : Type 0 where
  pub to : TriggerDb × Checksum
  pub reads : o ≡ some to
  pub same : to.0.installed ≡ db.installed

no_segments :
    (acc : List Bytes) → for_each_segment parse_triggers b' ' [] acc [] ≡ some (acc, pos 0)
unfolding for_each_segment
no_segments acc = unfold segment_loop split in refl

pub empty_line : (db : TriggerDb) (old : Checksum) → Skips db old (read_line db old [])
unfolding read_line pull_csum pull_char
empty_line db old = elim (Option-cases (get pkg_info_ops db.packages (csum_blob old))) [
  | inl e ↦ record { to = (db, old); reads = ap (for_package db old none) e; same = refl }
  | inr (pkg, e) ↦ elim (Option-cases (triggers_of db.installed (csum_blob pkg))) [
    | inl q ↦ record {
      to = (db, old);
      reads = ap (for_package db old none) e ∙ ap (for_installed db old (csum_blob pkg) none) q;
      same = refl;
    }
    | inr (triggers, q) ↦ record {
      to = (with_triggers db (csum_blob pkg) triggers, old);
      reads =
          ap (for_package db old none) e
          ∙ ap (for_installed db old (csum_blob pkg) none) q
          ∙ ap (after_segments db old (csum_blob pkg)) (no_segments triggers);
      same = unfold with_triggers in put_back db.installed (csum_blob pkg) q;
    }
  ]
]
