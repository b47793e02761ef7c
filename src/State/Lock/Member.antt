-- ===== src/State/Lock/Member.antt =====
-- About the choice among the candidates of apk-tools/src/state.c: it is one of them.
use am_linux_terminal_robot.Common.{
  ℕ, Bool, true, false, not, ◌||◌, Option, none, some, List, [], ◌∷◌, ◌==◌, if◌then◌else◌, All,
  Bool-cases, inl, inr,
}
use am_linux_terminal_robot.State.{Db, Flags, pkg_available}
use am_linux_terminal_robot.State.Lock.Selection.{
  Best, is_newer, later, look_at, look_through, choose, keeps_installed,
}

module _ {κ} (P : ℕ → Type κ) (db : Db) (flags : Flags) (reinstall : Bool) where
  -- A package, if there is one, is one of those.
  abbrev pub Holds : Option ℕ → Type κ
  Holds none = Unit
  Holds (some p) = P p

  if_P : (b : Bool) {x y : ℕ} → P x → P y → P (if b then x else y)
  if_P true h g = h
  if_P false h g = g

  if_Holds : (b : Bool) (x y : Option ℕ) → Holds x → Holds y → Holds (if b then x else y)
  if_Holds true x y h g = h
  if_Holds false x y h g = g

  later-Holds :
      (pkg : ℕ) (latest : Option ℕ) → P pkg → Holds latest → P (later db flags reinstall pkg latest)
  unfolding later
  later-Holds pkg none h g = h
  later-Holds pkg (some q) h g = if_P _ g (if_P _ h (if_P (is_newer db flags reinstall pkg q) h g))

  record BothHold (best : Best) : Type κ where
    pub installed_holds : Holds best.installed
    pub latest_holds : Holds best.latest

  look_at-BothHold :
      (best : Best) (pkg : ℕ)
      → P pkg
      → BothHold best
      → BothHold (look_at db flags reinstall best pkg)
  unfolding look_at
  look_at-BothHold best pkg h g = elim (Bool-cases (db.candidate pkg).ipkg) [
    | inl e ↦ rw e (record {
      installed_holds = h;
      latest_holds = later-Holds pkg best.latest h g.latest_holds;
    })
    | inr e ↦ elim (Bool-cases (pkg_available db flags pkg)) [
      | inl f ↦
          rw (e, f)
            (record {
              installed_holds = g.installed_holds;
              latest_holds = later-Holds pkg best.latest h g.latest_holds;
            })
      | inr f ↦ rw (e, f) g
    ]
  ]

  look_through-BothHold :
      (pkgs : List ℕ) (best : Best)
      → All P pkgs
      → BothHold best
      → BothHold (look_through db flags reinstall pkgs best)
  unfolding look_through
  look_through-BothHold [] best h g = g
  look_through-BothHold (p ∷ pkgs) best h g =
      look_through-BothHold pkgs _ h.1 (look_at-BothHold best p h.0 g)

  kept-Holds :
      (installed latest : Option ℕ)
      → Holds installed
      → Holds latest
      → Holds (keeps_installed db flags reinstall installed latest)
  kept-Holds none latest h g = g
  kept-Holds (some p) latest h g =
      elim (Bool-cases (not ((db.candidate p).repos == 0) || not reinstall)) [
        | inl e ↦ rw e h
        | inr e ↦ rw e g
      ]

  -- The package to use is one of the candidates.
  pub choose-Holds : (pkgs : List ℕ) → All P pkgs → Holds (choose db flags reinstall pkgs)
  unfolding choose
  choose-Holds pkgs h =
      let b = look_through-BothHold pkgs _ h (record { installed_holds = tt; latest_holds = tt }) in
      if_Holds flags.upgrade _ _ b.latest_holds (kept-Holds _ _ b.installed_holds b.latest_holds)
