-- ===== src/State/Lock/Selection.antt =====
-- apk-tools/src/state.c, lines 347 to 396: the choice among the candidates that are left.
use am_linux_terminal_robot.Common.{
  ℕ, Bool, ◌&&◌, ◌||◌, not, Option, none, some, List, [], ◌∷◌, ◌==◌, if◌then◌else◌,
}
use am_linux_terminal_robot.Version.Compare.{version_greater}
use am_linux_terminal_robot.State.{Db, Flags, version_compare, pkg_available}

-- The local variables of the loop.
pub record Best : Type 0 where
  pub installed : Option ℕ
  pub latest : Option ℕ

module _ (db : Db) (flags : Flags) (reinstall : Bool) where
  -- apk_pkg_version_compare(pkg, latest) == APK_VERSION_GREATER
  abbrev pub is_newer : ℕ → ℕ → Bool
  is_newer pkg latest =
      let p = db.candidate pkg in
      let q = db.candidate latest in version_compare p.version q.version == version_greater

  -- The package that is the latest behind a round with the package `pkg`.
  unfoldable pub later : ℕ → Option ℕ → ℕ
  later pkg none = pkg
  later pkg (some latest) =
      let p = db.candidate pkg in
      let q = db.candidate latest in
      let prefer = flags.prefer_available || reinstall in
      if prefer && not (q.repos == 0) && p.repos == 0
      then latest
      else if prefer && q.repos == 0 && not (p.repos == 0)
      then pkg
      else if is_newer pkg latest
      then pkg
      else latest

  unfoldable pub look_at : Best → ℕ → Best
  look_at best pkg =
      let p = db.candidate pkg in
      if p.ipkg
      then record { installed = some pkg; latest = some (later pkg best.latest) }
      else if pkg_available db flags pkg
      then record best { latest = some (later pkg best.latest) }
      else best

  unfoldable pub look_through : List ℕ → Best → Best
  look_through [] best = best
  look_through (pkg ∷ pkgs) best = look_through pkgs (look_at best pkg)

  abbrev pub keeps_installed : Option ℕ → Option ℕ → Option ℕ
  keeps_installed none latest = latest
  keeps_installed (some pkg) latest =
      let p = db.candidate pkg in if not (p.repos == 0) || not reinstall then some pkg else latest

  -- The package to use; none is a null pointer.
  unfoldable pub choose : List ℕ → Option ℕ
  choose pkgs =
      let best = look_through pkgs (record { installed = none; latest = none }) in
      if flags.upgrade then best.latest else keeps_installed best.installed best.latest
