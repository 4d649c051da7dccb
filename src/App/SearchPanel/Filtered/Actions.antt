-- ===== src/App/SearchPanel/Filtered/Actions.antt =====
-- The controls and the selections of app/searchpanel.cpp against the filter in force.
use amule_remote_qt.Base.{
  ℕ, ◌≡◌, refl, sym, subst, Bool, Option, some, List, ◌==◌, if_both, leb, All,
}
use amule_remote_qt.Ec.Bytes.{Bytes, Text}
use amule_remote_qt.App.SavedSearches.{SavedSearch}
use amule_remote_qt.App.Tables.{bytes_equal}
use amule_remote_qt.App.SearchPanel.{Toolkit, Controls, PanelSignal, SearchPanel, send}
use amule_remote_qt.App.SearchPanel.Tabs.{current_filter}
use amule_remote_qt.App.SearchPanel.Downloads.{set_progress, set_searching, select_rows, set_anchor}
use amule_remote_qt.App.SearchPanel.Choices.{
  same_bool, refilter, set_filter_text, set_negate, set_glob, set_regex, set_only_complete,
  set_min_sources, set_max_sources,
}
use amule_remote_qt.App.SearchPanel.Filtered.{
  Follows, Filtered, keep_following, apply-Filtered, update_anchor-Filtered,
  update_download_enabled-Filtered,
}

-- A change of what no filter depends on.
pub other-Filtered :
    (p : SearchPanel) {c : Controls} {live : Option ℕ} {n : ℕ} {b d : Bool} {ss : List SavedSearch}
    {file : Bytes} {names : List Text} {i : Option ℕ} {signals : List PanelSignal}
    → current_filter c ≡ current_filter p.controls
    → Filtered p
    → Filtered (record p {
      controls = c;
      live = live;
      progress = n;
      progress_visible = b;
      saved = ss;
      stored = file;
      saved_names = names;
      saved_index = i;
      saved_enabled = d;
      emitted = signals;
    })
other-Filtered p e h = record {
  follow = subst (λ f. All (Follows p.current f) p.tabs) (sym e) h.follow;
}

pub send-Filtered : (s : PanelSignal) (p : SearchPanel) → Filtered p → Filtered (send s p)
send-Filtered s p h = other-Filtered p refl h

pub select_rows-Filtered :
    (view : ℕ) (rows : List ℕ) (p : SearchPanel) → Filtered p → Filtered (select_rows view rows p)
unfolding select_rows
select_rows-Filtered view rows p h = update_anchor-Filtered (some view) _ (
    update_download_enabled-Filtered _ (record {
      follow =
          keep_following p.current (some view) (current_filter p.controls) _ p.tabs (λ t. refl)
            (λ t. refl) h.follow;
    }))

pub set_anchor-Filtered : (on : Bool) (p : SearchPanel) → Filtered p → Filtered (set_anchor on p)
unfolding set_anchor current_filter
set_anchor-Filtered on p h = update_anchor-Filtered p.current _ (other-Filtered p refl h)

pub set_progress-Filtered : (n : ℕ) (p : SearchPanel) → Filtered p → Filtered (set_progress n p)
unfolding set_progress
set_progress-Filtered n p h = if_both Filtered (leb n 100) (other-Filtered p refl h) h

pub set_searching-Filtered :
    (b : Bool) (p : SearchPanel) → Filtered p → Filtered (set_searching b p)
unfolding set_searching
set_searching-Filtered b p h = other-Filtered p refl h

module _ (q : Toolkit) where
  -- A control that changes is followed by the filter.
  refilter-Filtered : (f : Controls → Controls) (p : SearchPanel) → Filtered (refilter q f p)
  refilter-Filtered f p = apply-Filtered q (record p { controls = f p.controls })

  pub set_filter_text-Filtered :
      (t : Text) (p : SearchPanel) → Filtered p → Filtered (set_filter_text q t p)
  unfolding set_filter_text
  set_filter_text-Filtered t p h =
      if_both Filtered (bytes_equal t p.controls.filter_text) h
        (refilter-Filtered (λ c. record c { filter_text = t }) p)

  pub set_negate-Filtered : (x : Bool) (p : SearchPanel) → Filtered p → Filtered (set_negate q x p)
  unfolding set_negate
  set_negate-Filtered x p h =
      if_both Filtered (same_bool x p.controls.negate) h
        (refilter-Filtered (λ c. record c { negate = x }) p)

  pub set_only_complete-Filtered :
      (x : Bool) (p : SearchPanel) → Filtered p → Filtered (set_only_complete q x p)
  unfolding set_only_complete
  set_only_complete-Filtered x p h =
      if_both Filtered (same_bool x p.controls.only_complete) h
        (refilter-Filtered (λ c. record c { only_complete = x }) p)

  pub set_min_sources-Filtered :
      (x : ℕ) (p : SearchPanel) → Filtered p → Filtered (set_min_sources q x p)
  unfolding set_min_sources
  set_min_sources-Filtered x p h =
      if_both Filtered (x == p.controls.min_sources) h
        (refilter-Filtered (λ c. record c { min_sources = x }) p)

  pub set_max_sources-Filtered :
      (x : ℕ) (p : SearchPanel) → Filtered p → Filtered (set_max_sources q x p)
  unfolding set_max_sources
  set_max_sources-Filtered x p h =
      if_both Filtered (x == p.controls.max_sources) h
        (refilter-Filtered (λ c. record c { max_sources = x }) p)

  pub set_glob-Filtered : (on : Bool) (p : SearchPanel) → Filtered p → Filtered (set_glob q on p)
  unfolding set_glob
  set_glob-Filtered on p h = if_both Filtered (same_bool on p.controls.glob) h (apply-Filtered q _)

  pub set_regex-Filtered : (on : Bool) (p : SearchPanel) → Filtered p → Filtered (set_regex q on p)
  unfolding set_regex
  set_regex-Filtered on p h =
      if_both Filtered (same_bool on p.controls.regex) h (apply-Filtered q _)
