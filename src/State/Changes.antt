-- ===== src/State/Changes.antt =====
-- apk-tools/src/state.c, lines 595 to 655 and 728 to 763: what apk_state_commit tells of the changes
-- and counts of them.
pub mod Kinds
use am_linux_terminal_robot.Common.{
  ℕ, ◌+◌, Bool, true, false, ◌&&◌, ◌%◌, ◌^◌, not, Option, none, some, List, [], ◌∷◌, ◌==◌,
  if◌then◌else◌,
}
use Prim.Native.Nat.{bit_and, bit_or}
use am_linux_terminal_robot.Version.Compare.{version_equal, version_less, version_greater}
use am_linux_terminal_robot.State.{Db, Change, version_compare}

-- What apk_print_change says; `unnamed` is a null pointer for a message.
pub data Message : Type 0 where
  installing purging downgrading reinstalling upgrading unnamed : Message

-- struct apk_stats, whose counters have 32 bits
pub record Stats : Type 0 where
  pub bytes : ℕ
  pub packages : ℕ

module _ (db : Db) where
  -- apk_pkg_version_compare
  abbrev pub pkg_version_compare : ℕ → ℕ → ℕ
  pkg_version_compare a b =
      let p = db.candidate a in let q = db.candidate b in version_compare p.version q.version

  abbrev message_of : ℕ → ℕ → ℕ → Message
  message_of r oldpkg newpkg =
      if r == version_less
      then downgrading
      else if r == version_equal
      then (if newpkg == oldpkg then reinstalling else upgrading)
      else if r == version_greater
      then upgrading
      else unnamed

  -- apk_print_change
  unfoldable pub change_message : Option ℕ → Option ℕ → Message
  change_message none newpkg = installing
  change_message (some oldpkg) none = purging
  change_message (some oldpkg) (some newpkg) =
      message_of (pkg_version_compare newpkg oldpkg) oldpkg newpkg

  abbrev is_null : Option ℕ → Bool
  is_null none = true
  is_null (some p) = false

  unfoldable pub cmp_remove : Change → Bool
  cmp_remove change = is_null change.newpkg

  unfoldable pub cmp_new : Change → Bool
  cmp_new change = is_null change.oldpkg

  abbrev is_downgrade : Option ℕ → Option ℕ → Bool
  is_downgrade none newpkg = false
  is_downgrade (some oldpkg) none = false
  is_downgrade (some oldpkg) (some newpkg) =
      not (bit_and (pkg_version_compare newpkg oldpkg) version_less == 0)

  unfoldable pub cmp_downgrade : Change → Bool
  cmp_downgrade change = is_downgrade change.oldpkg change.newpkg

  abbrev is_upgrade : Option ℕ → Option ℕ → Bool
  is_upgrade none newpkg = false
  is_upgrade (some oldpkg) none = false
  is_upgrade (some oldpkg) (some newpkg) =
      not (bit_and (pkg_version_compare newpkg oldpkg) (bit_or version_greater version_equal) == 0)
      && not (newpkg == oldpkg)

  unfoldable pub cmp_upgrade : Change → Bool
  cmp_upgrade change = is_upgrade change.oldpkg change.newpkg

  abbrev size_of : Option ℕ → ℕ
  size_of none = 0
  size_of (some p) = let c = db.candidate p in c.installed_size

  abbrev one_if : Option ℕ → ℕ
  one_if none = 0
  one_if (some p) = 1

  -- apk_count_change
  unfoldable pub count_change : Change → Stats → Stats
  count_change change stats = record {
    bytes = (stats.bytes + size_of change.newpkg) % 2 ^ 32;
    packages = (stats.packages + one_if change.newpkg + one_if change.oldpkg) % 2 ^ 32;
  }
