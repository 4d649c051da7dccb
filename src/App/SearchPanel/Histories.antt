-- ===== src/App/SearchPanel/Histories.antt =====
-- Every slot of app/searchpanel.cpp keeps the panel's invariant, so it holds after any history.
use amule_remote_qt.Base.{
  Bool, ℕ, ◌≡◌, refl, subst, Option, none, some, List, [], ◌∷◌, if_both, ltb, length,
}
use amule_remote_qt.Ec.Bytes.{Bytes, Text}
use amule_remote_qt.App.SearchFilter.{is_empty}
use amule_remote_qt.App.SavedSearches.{SavedSearch, save}
use amule_remote_qt.App.Tables.{is_empty as is_none}
use amule_remote_qt.App.SearchPanel.{Toolkit, SearchPanel, spin_maximum}
use amule_remote_qt.App.SearchPanel.Tabs.{
  update_download_enabled, update_anchor, make_result_tab, on_current_tab_changed,
  apply_filter_to_current,
}
use amule_remote_qt.App.SearchPanel.Choices.{
  saved_at, remove_saved, store_search, saved_of, refresh_saved_combo,
}
use amule_remote_qt.App.SearchPanel.Slots.{
  on_search, on_save_search, fill_controls, load_chosen, on_load_saved, on_delete_saved, new_panel,
}
use amule_remote_qt.App.SearchPanel.Events
use amule_remote_qt.App.SearchPanel.Events.{PanelEvent, panel_step, panel_run}
use amule_remote_qt.App.SearchPanel.Views.{views, IsOpen}
use amule_remote_qt.App.SearchPanel.Invariant.{
  Held, PanelInv, update_download_enabled-PanelInv, set_panel_results-PanelInv,
  make_result_tab-PanelInv, on_tab_close-PanelInv, show_tab-PanelInv,
}
use amule_remote_qt.App.SearchPanel.Downloads.Stands.{
  on_download_stands, on_result_context_menu_stands,
}
use amule_remote_qt.App.SearchPanel.Actions.{
  other-PanelInv, send-PanelInv, select_rows-PanelInv, set_anchor-PanelInv, set_progress-PanelInv,
  set_searching-PanelInv,
}
use amule_remote_qt.App.SearchPanel.Refilters.{
  set_glob-PanelInv, set_regex-PanelInv, set_filter_text-PanelInv, set_negate-PanelInv,
  set_only_complete-PanelInv, set_min_sources-PanelInv, set_max_sources-PanelInv,
}

-- The current view becomes the live one.
live-Held : (p : SearchPanel) (o : Option ℕ) → p.current ≡ o → Held p → Held (record p { live = o })
live-Held p o e h = record {
  live_open = subst (λ v. IsOpen v (views p.tabs)) e h.current_open;
  current_open = h.current_open;
  fresh = h.fresh;
  exclusive = h.exclusive;
}

module _ (q : Toolkit) where
  current-make_result_tab :
      (label : Text) (p : SearchPanel) → (make_result_tab q label p).current ≡ some p.next_view
  unfolding make_result_tab on_current_tab_changed update_anchor update_download_enabled
      apply_filter_to_current
  current-make_result_tab label p = refl

  on_search-PanelInv : (p : SearchPanel) → PanelInv p → PanelInv (on_search q p)
  unfolding on_search
  on_search-PanelInv p h =
      let query = q.matching.trimmed p.controls.query in
      if_both PanelInv (is_empty query) h (
        send-PanelInv _ _ (
          update_download_enabled-PanelInv _ (
            live-Held (make_result_tab q query p) (some p.next_view)
              (current-make_result_tab query p) (make_result_tab-PanelInv q query p h.held).held)))

  saved-PanelInv :
      (ss : List SavedSearch) (file : Bytes) (p : SearchPanel)
      → PanelInv p
      → PanelInv (refresh_saved_combo (record p { saved = ss; stored = file }))
  unfolding refresh_saved_combo
  saved-PanelInv ss file p h = other-PanelInv p h.held.exclusive h

  on_save_search-PanelInv :
      (written : Bool) (answer : Option Text) (p : SearchPanel)
      → PanelInv p
      → PanelInv (on_save_search q written answer p)
  unfolding on_save_search
  on_save_search-PanelInv written none p h = h
  on_save_search-PanelInv written (some answer) p h =
      let name = q.matching.trimmed answer in
      let saved = store_search (saved_of name p.controls) p.saved in
      let kept = saved-PanelInv saved (save q.format written p.stored saved) p h in
      if_both PanelInv (is_empty (q.matching.trimmed answer)) h
        (other-PanelInv _ kept.held.exclusive kept)

  fill_controls-PanelInv :
      (s : SavedSearch) (p : SearchPanel) → PanelInv p → PanelInv (fill_controls q s p)
  unfolding fill_controls
  fill_controls-PanelInv s p h = set_max_sources-PanelInv q _ _ (
      set_min_sources-PanelInv q _ _ (
        set_only_complete-PanelInv q _ _ (
          set_regex-PanelInv q _ _ (
            set_glob-PanelInv q _ _ (
              set_negate-PanelInv q _ _
                (set_filter_text-PanelInv q _ _ (other-PanelInv p h.held.exclusive h)))))))

  load_chosen-PanelInv :
      (ss : List SavedSearch) (p : SearchPanel) → PanelInv p → PanelInv (load_chosen q ss p)
  load_chosen-PanelInv [] p h = h
  load_chosen-PanelInv (s ∷ ss) p h = on_search-PanelInv _ (fill_controls-PanelInv s p h)

  on_delete_saved-PanelInv :
      (written : Bool) (p : SearchPanel) → PanelInv p → PanelInv (on_delete_saved q written p)
  unfolding on_delete_saved
  on_delete_saved-PanelInv written p h =
      let saved = remove_saved p.saved_index p.saved in
      if_both PanelInv (is_none (saved_at p.saved_index p.saved)) h
        (saved-PanelInv saved (save q.format written p.stored saved) p h)

  panel_step-PanelInv :
      (e : PanelEvent) (p : SearchPanel) → PanelInv p → PanelInv (panel_step q e p)
  unfolding panel_step on_load_saved
  panel_step-PanelInv (Events.edit_query t) p h = other-PanelInv p h.held.exclusive h
  panel_step-PanelInv (Events.choose_network i) p h =
      if_both PanelInv (ltb i 3) (other-PanelInv p h.held.exclusive h) h
  panel_step-PanelInv (Events.choose_type i) p h =
      if_both PanelInv (ltb i 7) (other-PanelInv p h.held.exclusive h) h
  panel_step-PanelInv (Events.edit_filter t) p h = set_filter_text-PanelInv q t p h
  panel_step-PanelInv (Events.check_negate on) p h = set_negate-PanelInv q on p h
  panel_step-PanelInv (Events.check_glob on) p h = set_glob-PanelInv q on p h
  panel_step-PanelInv (Events.check_regex on) p h = set_regex-PanelInv q on p h
  panel_step-PanelInv (Events.check_only_complete on) p h = set_only_complete-PanelInv q on p h
  panel_step-PanelInv (Events.check_anchor on) p h = set_anchor-PanelInv on p h
  panel_step-PanelInv (Events.spin_min n) p h =
      if_both PanelInv (ltb spin_maximum n) h (set_min_sources-PanelInv q n p h)
  panel_step-PanelInv (Events.spin_max n) p h =
      if_both PanelInv (ltb spin_maximum n) h (set_max_sources-PanelInv q n p h)
  panel_step-PanelInv Events.press_search p h = on_search-PanelInv p h
  panel_step-PanelInv Events.press_download p h = on_download_stands PanelInv send-PanelInv p h
  panel_step-PanelInv (Events.open_menu view row arrivals choice) p h =
      on_result_context_menu_stands PanelInv send-PanelInv q (set_panel_results-PanelInv q) view row
        arrivals choice p h
  panel_step-PanelInv (Events.choose_tab i) p h = show_tab-PanelInv q i p h
  panel_step-PanelInv (Events.close_tab i shown told) p h = on_tab_close-PanelInv q i shown told p h
  panel_step-PanelInv (Events.change_selection view rows) p h = select_rows-PanelInv view rows p h
  panel_step-PanelInv (Events.choose_saved i) p h =
      if_both PanelInv (ltb i (length p.saved_names)) (other-PanelInv p h.held.exclusive h) h
  panel_step-PanelInv (Events.press_save written answer) p h =
      on_save_search-PanelInv written answer p h
  panel_step-PanelInv Events.press_load p h =
      load_chosen-PanelInv (saved_at p.saved_index p.saved) p h
  panel_step-PanelInv (Events.press_delete written) p h = on_delete_saved-PanelInv written p h
  panel_step-PanelInv (Events.results_arrive rs) p h = set_panel_results-PanelInv q rs p h
  panel_step-PanelInv (Events.progress_arrives n) p h = set_progress-PanelInv n p h
  panel_step-PanelInv (Events.searching_arrives b) p h = set_searching-PanelInv b p h

  panel_run-PanelInv :
      (es : List PanelEvent) (p : SearchPanel) → PanelInv p → PanelInv (panel_run q es p)
  unfolding panel_run
  panel_run-PanelInv [] p h = h
  panel_run-PanelInv (e ∷ es) p h = panel_run-PanelInv es _ (panel_step-PanelInv e p h)

  new_panel-PanelInv : (file : Bytes) → PanelInv (new_panel q file)
  unfolding new_panel refresh_saved_combo
  new_panel-PanelInv file =
      update_download_enabled-PanelInv _
        (record { live_open = tt; current_open = tt; fresh = tt; exclusive = refl })

  -- After any history of a panel, with any file of saved searches, the live view and the current
  -- one are those of tabs, the button "Download" is enabled only while the current tab is the live
  -- one, and glob and regex are never both checked.
  pub panel_run-new_panel-PanelInv :
      (file : Bytes) (es : List PanelEvent) → PanelInv (panel_run q es (new_panel q file))
  panel_run-new_panel-PanelInv file es = panel_run-PanelInv es _ (new_panel-PanelInv file)
