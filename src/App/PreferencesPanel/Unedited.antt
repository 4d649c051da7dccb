-- ===== src/App/PreferencesPanel/Unedited.antt =====
-- The form of app/preferencespanel.cpp, filled and read without an edit.
use amule_remote_qt.Base.{ℕ, ◌<◌, ◌≤◌, ◌^◌, ◌≡◌, refl, ap, ap₂, ◌∙◌, List, [], ◌∷◌, arith}
use amule_remote_qt.Model.Prefs.{DaemonPrefs}
use amule_remote_qt.App.Tables.{each}
use amule_remote_qt.App.Widgets.{spin_shows, spin_shows-within, combo_shows-within}
use amule_remote_qt.App.PreferencesPanel.{Binding}
use amule_remote_qt.App.PreferencesPanel.Bindings.{bools, ints, strings}
use amule_remote_qt.App.PreferencesPanel.Form.{
  write_all, shares_index, write_shares, set_form, collect,
}

write_all-each :
    {A : Type 0} (bs : List (Binding A)) (p : DaemonPrefs)
    → write_all bs (each (λ b. b.get p) bs) p ≡ p
unfolding write_all
write_all-each [] p = refl
write_all-each (b ∷ bs) p =
    ap (write_all bs (each (λ c. c.get p) bs)) (b.kept p) ∙ write_all-each bs p

-- Every number of the preferences is within its spin box's range.
abbrev pub Within : DaemonPrefs → List (ℕ × Binding ℕ) → Type 0
Within p [] = Unit
Within p (i ∷ is) = (i.1.get p ≤ i.0) × Within p is

-- The spin boxes' maxima are numbers of an `int`.
abbrev AreInts : List (ℕ × Binding ℕ) → Type 0
AreInts [] = Unit
AreInts (i ∷ is) = (i.0 < 2 ^ 31) × AreInts is

shown_numbers :
    (p : DaemonPrefs) (is : List (ℕ × Binding ℕ))
    → AreInts is
    → Within p is
    → each (λ i. spin_shows i.0 (i.1.get p)) is ≡ each (λ b. b.get p) (each (λ i. i.1) is)
shown_numbers p [] h k = refl
shown_numbers p (i ∷ is) (h, hs) (k, ks) =
    ap₂ ◌∷◌ (spin_shows-within i.0 (i.1.get p) h k) (shown_numbers p is hs ks)

ints-AreInts : AreInts ints
ints-AreInts = ground arith

-- Preferences that the form shows and that no one edits are collected as they were, the members
-- that have no widget included, where each number is within its spin box's range and the choice of
-- who sees the shared files is one of the three.
pub collect-set_form :
    (prefs : DaemonPrefs)
    → Within prefs ints
    → prefs.can_see_shares < 3
    → collect (set_form prefs) ≡ prefs
unfolding collect set_form
collect-set_form prefs h k =
    let members = each (λ i. i.1) ints in
    let numbered =
      ap₂ (write_all members) (shown_numbers prefs ints ints-AreInts h) (write_all-each bools prefs)
      ∙ write_all-each members prefs in
    let written =
      ap (write_all strings (each (λ s. s.get prefs) strings)) numbered
      ∙ write_all-each strings prefs in
    ap₂ write_shares (ap shares_index (combo_shows-within 3 prefs.can_see_shares (omega arith) k))
      written
