-- ===== src/App/SearchPanel/Core.antt =====
-- What the controls and the tabs of app/searchpanel.cpp leave alone: the saved searches, their file,
-- their names in the combo box, the progress bar and the signals sent.
pub mod Passive
use amule_remote_qt.Base.{
  ℕ, ◌≡◌, refl, ◌∙◌, Bool, true, false, not, ◌||◌, Option, none, some, List, [], ◌∷◌, ◌++◌, ◌==◌,
  if◌then◌else◌, if_both, Bool-cases, inl, inr,
}
use amule_remote_qt.Ec.Bytes.{Bytes, Text}
use amule_remote_qt.Model.Types.{SearchResult}
use amule_remote_qt.App.SavedSearches.{SavedSearch}
use amule_remote_qt.App.Tables.{bytes_equal}
use amule_remote_qt.App.SearchPanel.{Toolkit, Controls, PanelSignal, SearchPanel}
use amule_remote_qt.App.SearchPanel.Tabs.{
  same_view, update_download_enabled, update_anchor, apply_filter_to_current,
  on_current_tab_changed, set_panel_results, make_result_tab, show_left, show_tab, view_at,
}
use amule_remote_qt.App.SearchPanel.Downloads.{set_anchor, select_rows}
use amule_remote_qt.App.SearchPanel.Choices.{
  same_bool, refilter, clear_glob, clear_regex, set_filter_text, set_negate, set_glob, set_regex,
  set_only_complete, set_min_sources, set_max_sources,
}
use amule_remote_qt.App.SearchPanel.Slots.{fill_controls}

pub record Core : Type 0 where
  pub saved : List SavedSearch
  pub stored : Bytes
  pub saved_names : List Text
  pub progress_visible : Bool
  pub emitted : List PanelSignal

abbrev pub core : SearchPanel → Core
core p = record {
  saved = p.saved;
  stored = p.stored;
  saved_names = p.saved_names;
  progress_visible = p.progress_visible;
  emitted = p.emitted;
}

-- `p` is as `o` in that respect.
pub record SameCore (o p : SearchPanel) : Type 0 where
  pub same : core p ≡ core o

pub same_core : (p : SearchPanel) → SameCore p p
same_core p = record { same = refl }

pub select_rows-core :
    (view : ℕ) (rows : List ℕ) (p : SearchPanel) → SameCore p (select_rows view rows p)
unfolding select_rows update_anchor update_download_enabled
select_rows-core view rows p = record { same = refl }

pub set_anchor-core : (on : Bool) (p : SearchPanel) → SameCore p (set_anchor on p)
unfolding set_anchor update_anchor
set_anchor-core on p = record { same = refl }

module _ (q : Toolkit) where
  pub on_current_tab_changed-core : (p : SearchPanel) → SameCore p (on_current_tab_changed q p)
  unfolding on_current_tab_changed update_anchor update_download_enabled apply_filter_to_current
  on_current_tab_changed-core p = record { same = refl }

  pub show_left-core :
      (told : Bool) (before : Option ℕ) (p : SearchPanel) → SameCore p (show_left q told before p)
  unfolding show_left
  show_left-core told before p =
      if_both (SameCore p) (told || not (same_view p.current before))
        (on_current_tab_changed-core p) (same_core p)

  pub show_tab-core : (i : ℕ) (p : SearchPanel) → SameCore p (show_tab q i p)
  unfolding show_tab
  show_tab-core i p =
      let view = view_at i p.tabs in
      if_both (SameCore p) (same_view view none || same_view view p.current) (same_core p)
        (record { same = (on_current_tab_changed-core (record p { current = view })).same })

  pub make_result_tab-core :
      (label : Text) (p : SearchPanel) → SameCore p (make_result_tab q label p)
  unfolding make_result_tab
  make_result_tab-core label p = record { same = (on_current_tab_changed-core _).same }

  pub set_panel_results-core :
      (rs : List SearchResult) (p : SearchPanel) → SameCore p (set_panel_results q rs p)
  unfolding set_panel_results
  set_panel_results-core rs p =
      if_both (SameCore p) (same_view p.live none) (same_core p) (record { same = refl })

  -- In what follows `o` is the panel before.
  module _ (o : SearchPanel) where
    refilter-core :
        (f : Controls → Controls) (p : SearchPanel) → SameCore o p → SameCore o (refilter q f p)
    unfolding apply_filter_to_current
    refilter-core f p h = record { same = h.same }

    apply-core : (p : SearchPanel) → SameCore o p → SameCore o (apply_filter_to_current q p)
    unfolding apply_filter_to_current
    apply-core p h = record { same = h.same }

    pub set_filter_text-core :
        (t : Text) (p : SearchPanel) → SameCore o p → SameCore o (set_filter_text q t p)
    unfolding set_filter_text
    set_filter_text-core t p h =
        if_both (SameCore o) (bytes_equal t p.controls.filter_text) h
          (refilter-core (λ c. record c { filter_text = t }) p h)

    pub set_negate-core :
        (x : Bool) (p : SearchPanel) → SameCore o p → SameCore o (set_negate q x p)
    unfolding set_negate
    set_negate-core x p h =
        if_both (SameCore o) (same_bool x p.controls.negate) h
          (refilter-core (λ c. record c { negate = x }) p h)

    pub set_only_complete-core :
        (x : Bool) (p : SearchPanel) → SameCore o p → SameCore o (set_only_complete q x p)
    unfolding set_only_complete
    set_only_complete-core x p h =
        if_both (SameCore o) (same_bool x p.controls.only_complete) h
          (refilter-core (λ c. record c { only_complete = x }) p h)

    pub set_min_sources-core :
        (x : ℕ) (p : SearchPanel) → SameCore o p → SameCore o (set_min_sources q x p)
    unfolding set_min_sources
    set_min_sources-core x p h =
        if_both (SameCore o) (x == p.controls.min_sources) h
          (refilter-core (λ c. record c { min_sources = x }) p h)

    pub set_max_sources-core :
        (x : ℕ) (p : SearchPanel) → SameCore o p → SameCore o (set_max_sources q x p)
    unfolding set_max_sources
    set_max_sources-core x p h =
        if_both (SameCore o) (x == p.controls.max_sources) h
          (refilter-core (λ c. record c { max_sources = x }) p h)

    clear_regex-core : (p : SearchPanel) → SameCore o p → SameCore o (clear_regex q p)
    unfolding clear_regex
    clear_regex-core p h =
        if_both (SameCore o) p.controls.regex (refilter-core (λ c. record c { regex = false }) p h)
          h

    pub set_glob-core : (on : Bool) (p : SearchPanel) → SameCore o p → SameCore o (set_glob q on p)
    unfolding set_glob
    set_glob-core on p h =
        let checked : SearchPanel = record p { controls = record p.controls { glob = on } } in
        let known : SameCore o checked = record { same = h.same } in
        if_both (SameCore o) (same_bool on p.controls.glob) h
          (apply-core _ (if_both (SameCore o) on (clear_regex-core checked known) known))

    clear_glob-core : (p : SearchPanel) → SameCore o p → SameCore o (clear_glob q p)
    unfolding clear_glob
    clear_glob-core p h =
        if_both (SameCore o) p.controls.glob (refilter-core (λ c. record c { glob = false }) p h) h

    pub set_regex-core :
        (on : Bool) (p : SearchPanel) → SameCore o p → SameCore o (set_regex q on p)
    unfolding set_regex
    set_regex-core on p h =
        let checked : SearchPanel = record p { controls = record p.controls { regex = on } } in
        let known : SameCore o checked = record { same = h.same } in
        if_both (SameCore o) (same_bool on p.controls.regex) h
          (apply-core _ (if_both (SameCore o) on (clear_glob-core checked known) known))

  pub fill_controls-core : (s : SavedSearch) (p : SearchPanel) → SameCore p (fill_controls q s p)
  unfolding fill_controls
  fill_controls-core s p = set_max_sources-core p _ _ (
      set_min_sources-core p _ _ (
        set_only_complete-core p _ _ (
          set_regex-core p _ _ (
            set_glob-core p _ _
              (set_negate-core p _ _ (set_filter_text-core p _ _ (record { same = refl })))))))
