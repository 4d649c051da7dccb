-- ===== src/App/PreferencesPanel/Form.antt =====
-- The form of app/preferencespanel.cpp, filled and read.
use amule_remote_qt.Base.{ℕ, ◌-◌, ◌^◌, Option, none, some, List, [], ◌∷◌}
use amule_remote_qt.Model.Prefs.{DaemonPrefs}
use amule_remote_qt.App.Tables.{each}
use amule_remote_qt.App.Widgets.{spin_shows, combo_shows}
use amule_remote_qt.App.PreferencesPanel.{Binding, PreferencesPanel}
use amule_remote_qt.App.PreferencesPanel.Bindings.{bools, ints, strings}

-- The loops of `collect`: each binding's member is written with what its widget shows.
unfoldable pub write_all : {A : Type 0} → List (Binding A) → List A → DaemonPrefs → DaemonPrefs
write_all [] xs p = p
write_all (b ∷ bs) [] p = p
write_all (b ∷ bs) (x ∷ xs) p = write_all bs xs (b.set x p)

abbrev pub shares_index : Option ℕ → ℕ
shares_index none = 2 ^ 64 - 1
shares_index (some i) = i

abbrev pub write_shares : ℕ → DaemonPrefs → DaemonPrefs
write_shares n p = record p { can_see_shares = n }

unfoldable pub set_form : DaemonPrefs → PreferencesPanel
set_form prefs = record {
  current = prefs;
  flags = each (λ b. b.get prefs) bools;
  numbers = each (λ i. spin_shows i.0 (i.1.get prefs)) ints;
  texts = each (λ s. s.get prefs) strings;
  can_see_shares = combo_shows 3 prefs.can_see_shares;
}

-- An index of -1 is cast to the largest number of 64 bits.
unfoldable pub collect : PreferencesPanel → DaemonPrefs
collect form =
    let flagged = write_all bools form.flags form.current in
    let numbered = write_all (each (λ i. i.1) ints) form.numbers flagged in
    let written = write_all strings form.texts numbered in
    write_shares (shares_index form.can_see_shares) written
