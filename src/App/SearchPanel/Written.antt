-- ===== src/App/SearchPanel/Written.antt =====
-- What the controls of the filter in app/searchpanel.cpp show once they have been written.
use amule_remote_qt.Base.{
  ℕ, ◌≡◌, refl, sym, ap, subst, ◌∙◌, Bool, true, false, not, ◌&&◌, ◌==◌, ==_iff, Bool-cases, inl,
  inr, arith,
}
use amule_remote_qt.Ec.Bytes.{Text}
use amule_remote_qt.App.Tables.{bytes_equal}
use amule_remote_qt.App.Tables.Layout.{bytes_equal_iff}
use amule_remote_qt.App.SearchPanel.{Toolkit, Controls, SearchPanel}
use amule_remote_qt.App.SearchPanel.Tabs.{apply_filter_to_current}
use amule_remote_qt.App.SearchPanel.Choices.{
  same_bool, clear_glob, clear_regex, set_filter_text, set_negate, set_glob, set_regex,
  set_only_complete, set_min_sources, set_max_sources,
}

same_bool→≡ : (a b : Bool) → same_bool a b ≡ true → a ≡ b
same_bool→≡ true b h = sym h
same_bool→≡ false true h = absurd (ground arith)
same_bool→≡ false false h = refl

other_off : (a b : Bool) → a ≡ true → (a && b) ≡ false → b ≡ false
other_off a b e h = ground arith

first_off : (a b : Bool) → b ≡ true → (a && b) ≡ false → a ≡ false
first_off a b e h = ground arith

apart : (a b : Bool) → (a && (not a && b)) ≡ false
apart a b = ground arith

stays : (a b : Bool) → (a && b) ≡ false → (not b && a) ≡ a
stays a b h = ground arith

module _ (q : Toolkit) where
  -- What a control shows once it has been written.
  pub controls-set_filter_text :
      (t : Text) (p : SearchPanel)
      → (set_filter_text q t p).controls ≡ record p.controls { filter_text = t }
  unfolding set_filter_text apply_filter_to_current
  controls-set_filter_text t p = elim (Bool-cases (bytes_equal t p.controls.filter_text)) [
    | inl e ↦ rw e (
        ap (λ s. record p.controls { filter_text = s })
          (sym ((bytes_equal_iff t p.controls.filter_text).0 e)))
    | inr e ↦ rw e refl
  ]

  pub controls-set_negate :
      (x : Bool) (p : SearchPanel) → (set_negate q x p).controls ≡ record p.controls { negate = x }
  unfolding set_negate apply_filter_to_current
  controls-set_negate x p = elim (Bool-cases (same_bool x p.controls.negate)) [
    | inl e ↦
        rw e (ap (λ y. record p.controls { negate = y }) (sym (same_bool→≡ x p.controls.negate e)))
    | inr e ↦ rw e refl
  ]

  pub controls-set_only_complete :
      (x : Bool) (p : SearchPanel)
      → (set_only_complete q x p).controls ≡ record p.controls { only_complete = x }
  unfolding set_only_complete apply_filter_to_current
  controls-set_only_complete x p = elim (Bool-cases (same_bool x p.controls.only_complete)) [
    | inl e ↦ rw e (
        ap (λ y. record p.controls { only_complete = y })
          (sym (same_bool→≡ x p.controls.only_complete e)))
    | inr e ↦ rw e refl
  ]

  pub controls-set_min_sources :
      (x : ℕ) (p : SearchPanel)
      → (set_min_sources q x p).controls ≡ record p.controls { min_sources = x }
  unfolding set_min_sources apply_filter_to_current
  controls-set_min_sources x p = elim (Bool-cases (x == p.controls.min_sources)) [
    | inl e ↦ rw e (
        ap (λ y. record p.controls { min_sources = y })
          (sym ((==_iff x p.controls.min_sources).0 e)))
    | inr e ↦ rw e refl
  ]

  pub controls-set_max_sources :
      (x : ℕ) (p : SearchPanel)
      → (set_max_sources q x p).controls ≡ record p.controls { max_sources = x }
  unfolding set_max_sources apply_filter_to_current
  controls-set_max_sources x p = elim (Bool-cases (x == p.controls.max_sources)) [
    | inl e ↦ rw e (
        ap (λ y. record p.controls { max_sources = y })
          (sym ((==_iff x p.controls.max_sources).0 e)))
    | inr e ↦ rw e refl
  ]

  controls-clear_regex :
      (p : SearchPanel) → (clear_regex q p).controls ≡ record p.controls { regex = false }
  unfolding clear_regex apply_filter_to_current
  controls-clear_regex p = elim (Bool-cases p.controls.regex) [
    | inl e ↦ rw e refl
    | inr e ↦ rw e refl
  ]

  controls-clear_glob :
      (p : SearchPanel) → (clear_glob q p).controls ≡ record p.controls { glob = false }
  unfolding clear_glob apply_filter_to_current
  controls-clear_glob p = elim (Bool-cases p.controls.glob) [
    | inl e ↦ rw e refl
    | inr e ↦ rw e refl
  ]

  controls-apply : (p : SearchPanel) → (apply_filter_to_current q p).controls ≡ p.controls
  unfolding apply_filter_to_current
  controls-apply p = refl

  -- A box that is checked clears the other.
  controls-set_glob :
      (on : Bool) (p : SearchPanel)
      → (p.controls.glob && p.controls.regex) ≡ false
      → (set_glob q on p).controls
        ≡ record p.controls { glob = on; regex = not on && p.controls.regex }
  unfolding set_glob
  controls-set_glob true p h = elim (Bool-cases p.controls.glob) [
    | inl e ↦ rw e (
        ap (λ b. record p.controls { glob = true; regex = b })
          (other_off p.controls.glob p.controls.regex e h))
    | inr e ↦ rw e (controls-apply _ ∙ controls-clear_regex _)
  ]
  controls-set_glob false p h = elim (Bool-cases p.controls.glob) [
    | inl e ↦ rw e (controls-apply _)
    | inr e ↦ rw e refl
  ]

  controls-set_regex :
      (on : Bool) (p : SearchPanel)
      → (p.controls.glob && p.controls.regex) ≡ false
      → (set_regex q on p).controls
        ≡ record p.controls { regex = on; glob = not on && p.controls.glob }
  unfolding set_regex
  controls-set_regex true p h = elim (Bool-cases p.controls.regex) [
    | inl e ↦ rw e (
        ap (λ b. record p.controls { regex = true; glob = b })
          (first_off p.controls.glob p.controls.regex e h))
    | inr e ↦ rw e (controls-apply _ ∙ controls-clear_glob _)
  ]
  controls-set_regex false p h = elim (Bool-cases p.controls.regex) [
    | inl e ↦ rw e (controls-apply _)
    | inr e ↦ rw e refl
  ]

  -- Both boxes written, the one after the other.
  pub controls-set_boxes :
      (g r : Bool) (p : SearchPanel)
      → (g && r) ≡ false
      → (p.controls.glob && p.controls.regex) ≡ false
      → (set_regex q r (set_glob q g p)).controls ≡ record p.controls { glob = g; regex = r }
  controls-set_boxes g r p k h =
      let e = controls-set_glob g p h in
      controls-set_regex r _
        (subst (λ c. (c.glob && c.regex) ≡ false) (sym e) (apart g p.controls.regex))
      ∙ ap (λ (c : Controls). record c { regex = r; glob = not r && c.glob }) e
      ∙ ap (λ b. record p.controls { glob = b; regex = r }) (stays g r k)
