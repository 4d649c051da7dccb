-- ===== src/App/SearchPanel/Filtered/Histories.antt =====
-- Every slot of app/searchpanel.cpp leaves the current tab filtered as the controls say.
use amule_remote_qt.Base.{Bool, refl, Option, none, some, List, [], ◌∷◌, if_both, ltb, length}
use amule_remote_qt.Ec.Bytes.{Bytes, Text}
use amule_remote_qt.App.SearchFilter.{is_empty}
use amule_remote_qt.App.SavedSearches.{SavedSearch, save}
use amule_remote_qt.App.Tables.{is_empty as is_none}
use amule_remote_qt.App.SearchPanel.{Toolkit, SearchPanel, spin_maximum}
use amule_remote_qt.App.SearchPanel.Tabs.{current_filter, make_result_tab}
use amule_remote_qt.App.SearchPanel.Choices.{
  saved_at, remove_saved, store_search, saved_of, refresh_saved_combo,
}
use amule_remote_qt.App.SearchPanel.Slots.{
  on_search, on_save_search, fill_controls, load_chosen, on_load_saved, on_delete_saved, new_panel,
}
use amule_remote_qt.App.SearchPanel.Events
use amule_remote_qt.App.SearchPanel.Events.{PanelEvent, panel_step, panel_run}
use amule_remote_qt.App.SearchPanel.Downloads.Stands.{
  on_download_stands, on_result_context_menu_stands,
}
use amule_remote_qt.App.SearchPanel.Filtered.{
  Filtered, update_download_enabled-Filtered, on_current_tab_changed-Filtered,
  set_panel_results-Filtered, on_tab_close-Filtered, show_tab-Filtered,
}
use amule_remote_qt.App.SearchPanel.Filtered.Actions.{
  other-Filtered, send-Filtered, select_rows-Filtered, set_anchor-Filtered, set_progress-Filtered,
  set_searching-Filtered, set_filter_text-Filtered, set_negate-Filtered, set_only_complete-Filtered,
  set_min_sources-Filtered, set_max_sources-Filtered, set_glob-Filtered, set_regex-Filtered,
}

module _ (q : Toolkit) where
  on_search-Filtered : (p : SearchPanel) → Filtered p → Filtered (on_search q p)
  unfolding on_search make_result_tab
  on_search-Filtered p h =
      let query = q.matching.trimmed p.controls.query in
      if_both Filtered (is_empty query) h (
        send-Filtered _ _ (
          update_download_enabled-Filtered _
            (other-Filtered _ refl (on_current_tab_changed-Filtered q _))))

  fill_controls-Filtered :
      (s : SavedSearch) (p : SearchPanel) → Filtered p → Filtered (fill_controls q s p)
  unfolding fill_controls current_filter
  fill_controls-Filtered s p h = set_max_sources-Filtered q _ _ (
      set_min_sources-Filtered q _ _ (
        set_only_complete-Filtered q _ _ (
          set_regex-Filtered q _ _ (
            set_glob-Filtered q _ _ (
              set_negate-Filtered q _ _
                (set_filter_text-Filtered q _ _ (other-Filtered p refl h)))))))

  load_chosen-Filtered :
      (ss : List SavedSearch) (p : SearchPanel) → Filtered p → Filtered (load_chosen q ss p)
  load_chosen-Filtered [] p h = h
  load_chosen-Filtered (s ∷ ss) p h = on_search-Filtered _ (fill_controls-Filtered s p h)

  saved-Filtered :
      (ss : List SavedSearch) (file : Bytes) (p : SearchPanel)
      → Filtered p
      → Filtered (refresh_saved_combo (record p { saved = ss; stored = file }))
  unfolding refresh_saved_combo
  saved-Filtered ss file p h = other-Filtered p refl h

  on_save_search-Filtered :
      (written : Bool) (answer : Option Text) (p : SearchPanel)
      → Filtered p
      → Filtered (on_save_search q written answer p)
  unfolding on_save_search
  on_save_search-Filtered written none p h = h
  on_save_search-Filtered written (some answer) p h =
      let name = q.matching.trimmed answer in
      let saved = store_search (saved_of name p.controls) p.saved in
      let kept = saved-Filtered saved (save q.format written p.stored saved) p h in
      if_both Filtered (is_empty (q.matching.trimmed answer)) h (other-Filtered _ refl kept)

  on_delete_saved-Filtered :
      (written : Bool) (p : SearchPanel) → Filtered p → Filtered (on_delete_saved q written p)
  unfolding on_delete_saved
  on_delete_saved-Filtered written p h =
      let saved = remove_saved p.saved_index p.saved in
      if_both Filtered (is_none (saved_at p.saved_index p.saved)) h
        (saved-Filtered saved (save q.format written p.stored saved) p h)

  panel_step-Filtered :
      (e : PanelEvent) (p : SearchPanel) → Filtered p → Filtered (panel_step q e p)
  unfolding panel_step on_load_saved current_filter
  panel_step-Filtered (Events.edit_query t) p h = other-Filtered p refl h
  panel_step-Filtered (Events.choose_network i) p h =
      if_both Filtered (ltb i 3) (other-Filtered p refl h) h
  panel_step-Filtered (Events.choose_type i) p h =
      if_both Filtered (ltb i 7) (other-Filtered p refl h) h
  panel_step-Filtered (Events.edit_filter t) p h = set_filter_text-Filtered q t p h
  panel_step-Filtered (Events.check_negate on) p h = set_negate-Filtered q on p h
  panel_step-Filtered (Events.check_glob on) p h = set_glob-Filtered q on p h
  panel_step-Filtered (Events.check_regex on) p h = set_regex-Filtered q on p h
  panel_step-Filtered (Events.check_only_complete on) p h = set_only_complete-Filtered q on p h
  panel_step-Filtered (Events.check_anchor on) p h = set_anchor-Filtered on p h
  panel_step-Filtered (Events.spin_min n) p h =
      if_both Filtered (ltb spin_maximum n) h (set_min_sources-Filtered q n p h)
  panel_step-Filtered (Events.spin_max n) p h =
      if_both Filtered (ltb spin_maximum n) h (set_max_sources-Filtered q n p h)
  panel_step-Filtered Events.press_search p h = on_search-Filtered p h
  panel_step-Filtered Events.press_download p h = on_download_stands Filtered send-Filtered p h
  panel_step-Filtered (Events.open_menu view row arrivals choice) p h =
      on_result_context_menu_stands Filtered send-Filtered q (set_panel_results-Filtered q) view row
        arrivals choice p h
  panel_step-Filtered (Events.choose_tab i) p h = show_tab-Filtered q i p h
  panel_step-Filtered (Events.close_tab i shown told) p h = on_tab_close-Filtered q i shown told p h
  panel_step-Filtered (Events.change_selection view rows) p h = select_rows-Filtered view rows p h
  panel_step-Filtered (Events.choose_saved i) p h =
      if_both Filtered (ltb i (length p.saved_names)) (other-Filtered p refl h) h
  panel_step-Filtered (Events.press_save written answer) p h =
      on_save_search-Filtered written answer p h
  panel_step-Filtered Events.press_load p h =
      load_chosen-Filtered (saved_at p.saved_index p.saved) p h
  panel_step-Filtered (Events.press_delete written) p h = on_delete_saved-Filtered written p h
  panel_step-Filtered (Events.results_arrive rs) p h = set_panel_results-Filtered q rs p h
  panel_step-Filtered (Events.progress_arrives n) p h = set_progress-Filtered n p h
  panel_step-Filtered (Events.searching_arrives b) p h = set_searching-Filtered b p h

  panel_run-Filtered :
      (es : List PanelEvent) (p : SearchPanel) → Filtered p → Filtered (panel_run q es p)
  unfolding panel_run
  panel_run-Filtered [] p h = h
  panel_run-Filtered (e ∷ es) p h = panel_run-Filtered es _ (panel_step-Filtered e p h)

  new_panel-Filtered : (file : Bytes) → Filtered (new_panel q file)
  unfolding new_panel refresh_saved_combo
  new_panel-Filtered file = update_download_enabled-Filtered _ (record { follow = tt })

  -- After any history of a panel the filter of the tab that is shown is the one that the controls
  -- show, however often tabs were opened, changed and closed in between.
  pub panel_run-new_panel-Filtered :
      (file : Bytes) (es : List PanelEvent) → Filtered (panel_run q es (new_panel q file))
  panel_run-new_panel-Filtered file es = panel_run-Filtered es _ (new_panel-Filtered file)
