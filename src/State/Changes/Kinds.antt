-- ===== src/State/Changes/Kinds.antt =====
-- About the kinds of changes in apk-tools/src/state.c: those that are listed before they are made,
-- and those that are told as they are made.
use am_linux_terminal_robot.Common.{
  ℕ, ◌≡◌, ◌⊎◌, refl, sym, ap, ◌∙◌, Bool, true, false, Option, none, some, Bytes, ◌==◌, Bool-cases,
  inl, inr, arith, ==_iff,
}
use am_linux_terminal_robot.Version.Compare.{
  version_equal, version_less, version_greater, compare_blob, compare_bytes,
}
use am_linux_terminal_robot.Version.Order.{verdict_total, compare_blob_refl}
use am_linux_terminal_robot.State.{Db, Change, version_compare, version_blob}
use am_linux_terminal_robot.State.Changes.{
  Message, installing, purging, downgrading, reinstalling, upgrading, unnamed, change_message,
  cmp_remove, cmp_new, cmp_downgrade, cmp_upgrade,
}

abbrev pub says_installing : Message → Bool
says_installing installing = true
says_installing purging = false
says_installing downgrading = false
says_installing reinstalling = false
says_installing upgrading = false
says_installing unnamed = false

abbrev pub says_purging : Message → Bool
says_purging installing = false
says_purging purging = true
says_purging downgrading = false
says_purging reinstalling = false
says_purging upgrading = false
says_purging unnamed = false

abbrev pub says_downgrading : Message → Bool
says_downgrading installing = false
says_downgrading purging = false
says_downgrading downgrading = true
says_downgrading reinstalling = false
says_downgrading upgrading = false
says_downgrading unnamed = false

abbrev pub says_upgrading : Message → Bool
says_upgrading installing = false
says_upgrading purging = false
says_upgrading downgrading = false
says_upgrading reinstalling = false
says_upgrading upgrading = true
says_upgrading unnamed = false

compare_total :
    (a b : Bytes)
    → (version_compare (some a) (some b) ≡ version_less)
      ⊎ (version_compare (some a) (some b) ≡ version_equal)
      ⊎ (version_compare (some a) (some b) ≡ version_greater)
unfolding compare_blob compare_bytes
compare_total a b = verdict_total _

module _ (db : Db) where
  -- Both packages of a change, if there are two, have a version, and there is one.
  abbrev pub IsChange : Option ℕ → Option ℕ → Type 0
  IsChange none none = ⊥
  IsChange none (some q) = Unit
  IsChange (some p) none = Unit
  IsChange (some p) (some q) =
      (a : Bytes) × ((b : Bytes) × (((db.candidate q).version ≡ some a)
          × ((db.candidate p).version ≡ some b)))

  same_version :
      {p q : ℕ} (a b : Bytes)
      → (db.candidate q).version ≡ some a
      → (db.candidate p).version ≡ some b
      → q ≡ p
      → version_compare (some a) (some b) ≡ version_equal
  same_version {p} {q} a b e f s =
      ap (λ v. version_compare (some a) v) (sym f ∙ ap (λ x. (db.candidate x).version) (sym s) ∙ e)
      ∙ compare_blob_refl (version_blob (some a))

  -- A change of one package at least, whose packages have versions, is listed as new, removed,
  -- downgraded or upgraded exactly if it is told as that: so it is listed once, and only the
  -- re-installation of a package is not listed.
  pub change_message-cmp :
      (oldpkg newpkg : Option ℕ)
      → IsChange oldpkg newpkg
      → let change : Change = record { oldpkg = oldpkg; newpkg = newpkg } in
        let message = change_message db oldpkg newpkg in
        ((cmp_new db change ≡ says_installing message)
          × (cmp_remove db change ≡ says_purging message))
        × ((cmp_downgrade db change ≡ says_downgrading message)
            × (cmp_upgrade db change ≡ says_upgrading message))
  unfolding change_message cmp_new cmp_remove cmp_downgrade cmp_upgrade
  change_message-cmp none none h = absurd h
  change_message-cmp none (some q) h = ((refl, refl), (refl, refl))
  change_message-cmp (some p) none h = ((refl, refl), (refl, refl))
  change_message-cmp (some p) (some q) (a, (b, (e, f))) =
      rw (e, f)
        (elim (compare_total a b) [
          | inl l ↦ rw l ((refl, refl), (refl, refl))
          | inr (inl l) ↦ rw l (elim (Bool-cases (q == p)) [
            | inl s ↦ rw s ((refl, refl), (refl, refl))
            | inr s ↦ rw s ((refl, refl), (refl, refl))
          ])
          | inr (inr l) ↦ rw l (elim (Bool-cases (q == p)) [
            | inl s ↦ absurd (omega (arith, sym l ∙ same_version a b e f ((==_iff q p).0 s)))
            | inr s ↦ rw s ((refl, refl), (refl, refl))
          ])
        ])
