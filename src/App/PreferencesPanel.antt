-- ===== src/App/PreferencesPanel.antt =====
-- app/preferencespanel.h and app/preferencespanel.cpp: the form of the daemon's preferences.
pub mod FirstBindings
pub mod Bindings
pub mod Form
pub mod Unedited
use amule_remote_qt.Base.{ℕ, ◌≡◌, Bool, Option, List}
use amule_remote_qt.Ec.Bytes.{Text}
use amule_remote_qt.Model.Prefs.{DaemonPrefs}

-- A widget's member of DaemonPrefs, which `prefs.*field` reads and writes. Writing what is read
-- changes nothing.
pub record Binding (A : Type 0) : Type 0 where
  pub get : DaemonPrefs → A
  pub set : A → DaemonPrefs → DaemonPrefs
  pub kept : (p : DaemonPrefs) → set (get p) p ≡ p

abbrev pub binding :
    {A : Type 0} (get : DaemonPrefs → A) (set : A → DaemonPrefs → DaemonPrefs)
    → ((p : DaemonPrefs) → set (get p) p ≡ p)
    → Binding A
binding get set kept = record { get = get; set = set; kept = kept }

-- The members of PreferencesPanel: what the check boxes, the spin boxes and the line edits show, each
-- in the order of its bindings, and the index of `canSeeShares_`.
pub record PreferencesPanel : Type 0 where
  pub current : DaemonPrefs
  pub flags : List Bool
  pub numbers : List ℕ
  pub texts : List Text
  pub can_see_shares : Option ℕ
