-- ===== src/App/SearchPanel/Core/Passive.antt =====
-- Most events of app/searchpanel.cpp do nothing but change what `Core` leaves out, and ask for a
-- search or for its end.
use amule_remote_qt.Base.{
  ℕ, ◌≡◌, refl, Bool, true, false, Option, none, List, [], ◌∷◌, if_both, arith, ltb, length,
}
use amule_remote_qt.Model.Types.{SearchParams}
use amule_remote_qt.App.SearchFilter.{is_empty}
use amule_remote_qt.App.SavedSearches.{SavedSearch}
use amule_remote_qt.App.SearchPanel.{
  Toolkit, search_requested, stop_requested, SearchPanel, send, spin_maximum,
}
use amule_remote_qt.App.SearchPanel.Tabs.{
  same_view, view_at, update_download_enabled, stop_live, remove_tab, on_tab_close,
}
use amule_remote_qt.App.SearchPanel.Choices.{saved_at}
use amule_remote_qt.App.SearchPanel.Slots.{on_search, load_chosen, on_load_saved}
use amule_remote_qt.App.SearchPanel.Events
use amule_remote_qt.App.SearchPanel.Events.{PanelEvent, panel_step}
use amule_remote_qt.App.SearchPanel.Core.{
  SameCore, same_core, select_rows-core, set_anchor-core, show_left-core, show_tab-core,
  make_result_tab-core, set_panel_results-core, set_filter_text-core, set_negate-core,
  set_only_complete-core, set_min_sources-core, set_max_sources-core, set_glob-core, set_regex-core,
  fill_controls-core,
}

-- The other events: downloads, saved searches that change, and the worker's progress.
abbrev pub is_passive : PanelEvent → Bool
is_passive Events.press_download = false
is_passive (Events.open_menu view row arrivals choice) = false
is_passive (Events.press_save written answer) = false
is_passive (Events.press_delete written) = false
is_passive (Events.progress_arrives n) = false
is_passive (Events.searching_arrives b) = false
is_passive _ = true

module _ (q : Toolkit) (P : SearchPanel → Type 0)
    (quiet : (o p : SearchPanel) → SameCore o p → P o → P p)
    (asked : (s : SearchParams) (p : SearchPanel) → P p → P (send (search_requested s) p))
    (stopped : (p : SearchPanel) → P p → P (send stop_requested p)) where
  on_search_passive : (p : SearchPanel) → P p → P (on_search q p)
  unfolding on_search update_download_enabled
  on_search_passive p h =
      let query = q.matching.trimmed p.controls.query in
      if_both P (is_empty query) h
        (asked _ _ (quiet p _ (record { same = (make_result_tab-core q query p).same }) h))

  load_chosen_passive : (ss : List SavedSearch) (p : SearchPanel) → P p → P (load_chosen q ss p)
  load_chosen_passive [] p h = h
  load_chosen_passive (s ∷ ss) p h = on_search_passive _ (quiet p _ (fill_controls-core q s p) h)

  stop_live_passive : (page : Option ℕ) (p : SearchPanel) → P p → P (stop_live q page p)
  unfolding stop_live
  stop_live_passive page p h =
      if_both P (same_view page p.live)
        (stopped (record p { live = none }) (quiet p _ (record { same = refl }) h)) h

  removed-core : (i shown : ℕ) (p : SearchPanel) → SameCore p (remove_tab q i shown p)
  unfolding remove_tab
  removed-core i shown p = record { same = refl }

  updated-core : (p : SearchPanel) → SameCore p (update_download_enabled p)
  unfolding update_download_enabled
  updated-core p = record { same = refl }

  on_tab_close_passive :
      (i shown : ℕ) (told : Bool) (p : SearchPanel) → P p → P (on_tab_close q i shown told p)
  unfolding on_tab_close
  on_tab_close_passive i shown told p h =
      let stopped_panel = stop_live q (view_at i p.tabs) p in
      quiet _ _ (updated-core _) (
        quiet _ _ (show_left-core q told p.current _) (
          quiet _ _ (removed-core i shown stopped_panel)
            (stop_live_passive (view_at i p.tabs) p h)))

  pub panel_step_passive :
      (e : PanelEvent) (p : SearchPanel) → is_passive e ≡ true → P p → P (panel_step q e p)
  unfolding panel_step on_load_saved
  panel_step_passive (Events.edit_query t) p k h = quiet p _ (record { same = refl }) h
  panel_step_passive (Events.choose_network i) p k h =
      quiet p _ (if_both (SameCore p) (ltb i 3) (record { same = refl }) (same_core p)) h
  panel_step_passive (Events.choose_type i) p k h =
      quiet p _ (if_both (SameCore p) (ltb i 7) (record { same = refl }) (same_core p)) h
  panel_step_passive (Events.edit_filter x) p k h =
      quiet p _ (set_filter_text-core q p x p (same_core p)) h
  panel_step_passive (Events.check_negate x) p k h =
      quiet p _ (set_negate-core q p x p (same_core p)) h
  panel_step_passive (Events.check_glob x) p k h = quiet p _ (set_glob-core q p x p (same_core p)) h
  panel_step_passive (Events.check_regex x) p k h =
      quiet p _ (set_regex-core q p x p (same_core p)) h
  panel_step_passive (Events.check_only_complete x) p k h =
      quiet p _ (set_only_complete-core q p x p (same_core p)) h
  panel_step_passive (Events.check_anchor on) p k h = quiet p _ (set_anchor-core on p) h
  panel_step_passive (Events.spin_min n) p k h =
      quiet p _
        (if_both (SameCore p) (ltb spin_maximum n) (same_core p)
          (set_min_sources-core q p n p (same_core p)))
        h
  panel_step_passive (Events.spin_max n) p k h =
      quiet p _
        (if_both (SameCore p) (ltb spin_maximum n) (same_core p)
          (set_max_sources-core q p n p (same_core p)))
        h
  panel_step_passive Events.press_search p k h = on_search_passive p h
  panel_step_passive (Events.choose_tab i) p k h = quiet p _ (show_tab-core q i p) h
  panel_step_passive (Events.close_tab i shown told) p k h = on_tab_close_passive i shown told p h
  panel_step_passive (Events.change_selection view rows) p k h =
      quiet p _ (select_rows-core view rows p) h
  panel_step_passive (Events.choose_saved i) p k h =
      quiet p _
        (if_both (SameCore p) (ltb i (length p.saved_names)) (record { same = refl }) (same_core p))
        h
  panel_step_passive Events.press_load p k h =
      load_chosen_passive (saved_at p.saved_index p.saved) p h
  panel_step_passive (Events.results_arrive rs) p k h = quiet p _ (set_panel_results-core q rs p) h
  panel_step_passive Events.press_download p k h = absurd (ground arith)
  panel_step_passive (Events.open_menu view row arrivals choice) p k h = absurd (ground arith)
  panel_step_passive (Events.press_save written answer) p k h = absurd (ground arith)
  panel_step_passive (Events.press_delete written) p k h = absurd (ground arith)
  panel_step_passive (Events.progress_arrives n) p k h = absurd (ground arith)
  panel_step_passive (Events.searching_arrives b) p k h = absurd (ground arith)
