-- ===== src/App/SearchPanel/Refilters.antt =====
-- The controls of the filter in app/searchpanel.cpp keep the panel's invariant.
use amule_remote_qt.Base.{
  ℕ, ◌≡◌, refl, Bool, true, false, ◌&&◌, ◌==◌, if_both, Bool-cases, inl, inr, arith, if◌then◌else◌,
}
use amule_remote_qt.Ec.Bytes.{Text}
use amule_remote_qt.App.Tables.{bytes_equal}
use amule_remote_qt.App.SearchPanel.{Toolkit, Controls, SearchPanel}
use amule_remote_qt.App.SearchPanel.Choices.{
  same_bool, refilter, clear_glob, clear_regex, set_filter_text, set_negate, set_glob, set_regex,
  set_only_complete, set_min_sources, set_max_sources,
}
use amule_remote_qt.App.SearchPanel.Invariant.{PanelInv, apply_filter_to_current-PanelInv}
use amule_remote_qt.App.SearchPanel.Actions.{other-PanelInv}

module _ (q : Toolkit) where
  refilter-PanelInv :
      (f : Controls → Controls) (p : SearchPanel)
      → ((f p.controls).glob && (f p.controls).regex) ≡ false
      → PanelInv p
      → PanelInv (refilter q f p)
  refilter-PanelInv f p e h = apply_filter_to_current-PanelInv q _ (other-PanelInv p e h)

  -- A control that is written only where it changes.
  pub unless-PanelInv :
      (same : Bool) (f : Controls → Controls) (p : SearchPanel)
      → ((f p.controls).glob && (f p.controls).regex) ≡ false
      → PanelInv p
      → PanelInv (if same then p else refilter q f p)
  unless-PanelInv same f p e h = if_both PanelInv same h (refilter-PanelInv f p e h)

  clear_regex-PanelInv :
      (p : SearchPanel)
      → PanelInv p
      → PanelInv (clear_regex q (record p { controls = record p.controls { glob = true } }))
  unfolding clear_regex
  clear_regex-PanelInv p h = elim (Bool-cases p.controls.regex) [
    | inl e ↦ rw e (
        apply_filter_to_current-PanelInv q _
          (other-PanelInv p {c = record p.controls { glob = true; regex = false }} refl h))
    | inr e ↦ rw e (other-PanelInv p {c = record p.controls { glob = true; regex = false }} refl h)
  ]

  clear_glob-PanelInv :
      (p : SearchPanel)
      → PanelInv p
      → PanelInv (clear_glob q (record p { controls = record p.controls { regex = true } }))
  unfolding clear_glob
  clear_glob-PanelInv p h = elim (Bool-cases p.controls.glob) [
    | inl e ↦ rw e (
        apply_filter_to_current-PanelInv q _
          (other-PanelInv p {c = record p.controls { glob = false; regex = true }} refl h))
    | inr e ↦ rw e (other-PanelInv p {c = record p.controls { glob = false; regex = true }} refl h)
  ]

  pub set_glob-PanelInv : (on : Bool) (p : SearchPanel) → PanelInv p → PanelInv (set_glob q on p)
  unfolding set_glob
  set_glob-PanelInv true p h =
      if_both PanelInv (same_bool true p.controls.glob) h
        (apply_filter_to_current-PanelInv q _ (clear_regex-PanelInv p h))
  set_glob-PanelInv false p h = if_both PanelInv (same_bool false p.controls.glob) h (
      apply_filter_to_current-PanelInv q _
        (other-PanelInv p {c = record p.controls { glob = false }} refl h))

  pub set_regex-PanelInv : (on : Bool) (p : SearchPanel) → PanelInv p → PanelInv (set_regex q on p)
  unfolding set_regex
  set_regex-PanelInv true p h =
      if_both PanelInv (same_bool true p.controls.regex) h
        (apply_filter_to_current-PanelInv q _ (clear_glob-PanelInv p h))
  set_regex-PanelInv false p h = if_both PanelInv (same_bool false p.controls.regex) h (
      apply_filter_to_current-PanelInv q _
        (other-PanelInv p {c = record p.controls { regex = false }} (and_false p.controls.glob) h))
    where
      and_false : (b : Bool) → (b && false) ≡ false
      and_false b = ground arith

  pub set_filter_text-PanelInv :
      (x : Text) (p : SearchPanel) → PanelInv p → PanelInv (set_filter_text q x p)
  unfolding set_filter_text
  set_filter_text-PanelInv x p h =
      unless-PanelInv (bytes_equal x p.controls.filter_text) (λ c. record c { filter_text = x }) p
        h.held.exclusive h

  pub set_negate-PanelInv : (x : Bool) (p : SearchPanel) → PanelInv p → PanelInv (set_negate q x p)
  unfolding set_negate
  set_negate-PanelInv x p h =
      unless-PanelInv (same_bool x p.controls.negate) (λ c. record c { negate = x }) p
        h.held.exclusive h

  pub set_only_complete-PanelInv :
      (x : Bool) (p : SearchPanel) → PanelInv p → PanelInv (set_only_complete q x p)
  unfolding set_only_complete
  set_only_complete-PanelInv x p h =
      unless-PanelInv (same_bool x p.controls.only_complete) (λ c. record c { only_complete = x }) p
        h.held.exclusive h

  pub set_min_sources-PanelInv :
      (x : ℕ) (p : SearchPanel) → PanelInv p → PanelInv (set_min_sources q x p)
  unfolding set_min_sources
  set_min_sources-PanelInv x p h =
      unless-PanelInv (x == p.controls.min_sources) (λ c. record c { min_sources = x }) p
        h.held.exclusive h

  pub set_max_sources-PanelInv :
      (x : ℕ) (p : SearchPanel) → PanelInv p → PanelInv (set_max_sources q x p)
  unfolding set_max_sources
  set_max_sources-PanelInv x p h =
      unless-PanelInv (x == p.controls.max_sources) (λ c. record c { max_sources = x }) p
        h.held.exclusive h
