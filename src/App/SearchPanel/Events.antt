-- ===== src/App/SearchPanel/Events.antt =====
-- What can happen to the search panel: the user's actions, and the worker's signals.
use amule_remote_qt.Base.{ℕ, Bool, Option, some, List, [], ◌∷◌, ltb, if◌then◌else◌, length}
use amule_remote_qt.Ec.Bytes.{Text}
use amule_remote_qt.Model.Types.{SearchResult}
use amule_remote_qt.App.SearchPanel.{Toolkit, Controls, SearchPanel, spin_maximum}
use amule_remote_qt.App.SearchPanel.Tabs.{set_panel_results, on_tab_close, show_tab}
use amule_remote_qt.App.SearchPanel.Downloads.{
  on_download, MenuChoice, on_result_context_menu, set_progress, set_searching, select_rows,
  set_anchor,
}
use amule_remote_qt.App.SearchPanel.Choices.{
  set_filter_text, set_negate, set_glob, set_regex, set_only_complete, set_min_sources,
  set_max_sources,
}
use amule_remote_qt.App.SearchPanel.Slots.{
  on_search, on_save_search, on_load_saved, on_delete_saved,
}

-- The controls' changes, the buttons and the menu, the tab widget's signals, the selections of the
-- views, and the worker's signals.
pub data PanelEvent : Type 0 where
  edit_query : Text → PanelEvent
  choose_network choose_type : ℕ → PanelEvent
  edit_filter : Text → PanelEvent
  check_negate check_glob check_regex check_only_complete check_anchor : Bool → PanelEvent
  spin_min spin_max : ℕ → PanelEvent
  press_search press_download : PanelEvent
  open_menu : Option ℕ → ℕ → List (List SearchResult) → MenuChoice → PanelEvent
  choose_tab : ℕ → PanelEvent
  close_tab : ℕ → ℕ → Bool → PanelEvent
  change_selection : ℕ → List ℕ → PanelEvent
  choose_saved : ℕ → PanelEvent
  press_save : Bool → Option Text → PanelEvent
  press_load : PanelEvent
  press_delete : Bool → PanelEvent
  results_arrive : List SearchResult → PanelEvent
  progress_arrives : ℕ → PanelEvent
  searching_arrives : Bool → PanelEvent

-- A combo box has no index past its items, and a spin box no value past its range.
abbrev pub write_controls : (Controls → Controls) → SearchPanel → SearchPanel
write_controls f p = record p { controls = f p.controls }

unfoldable pub panel_step : Toolkit → PanelEvent → SearchPanel → SearchPanel
panel_step q (edit_query t) p = write_controls (λ c. record c { query = t }) p
panel_step q (choose_network i) p =
    if ltb i 3 then write_controls (λ c. record c { kind_index = i }) p else p
panel_step q (choose_type i) p =
    if ltb i 7 then write_controls (λ c. record c { type_index = i }) p else p
panel_step q (edit_filter t) p = set_filter_text q t p
panel_step q (check_negate on) p = set_negate q on p
panel_step q (check_glob on) p = set_glob q on p
panel_step q (check_regex on) p = set_regex q on p
panel_step q (check_only_complete on) p = set_only_complete q on p
panel_step q (check_anchor on) p = set_anchor on p
panel_step q (spin_min n) p = if ltb spin_maximum n then p else set_min_sources q n p
panel_step q (spin_max n) p = if ltb spin_maximum n then p else set_max_sources q n p
panel_step q press_search p = on_search q p
panel_step q press_download p = on_download p
panel_step q (open_menu view row arrivals choice) p =
    on_result_context_menu q view row arrivals choice p
panel_step q (choose_tab i) p = show_tab q i p
panel_step q (close_tab i shown told) p = on_tab_close q i shown told p
panel_step q (change_selection view rows) p = select_rows view rows p
panel_step q (choose_saved i) p =
    if ltb i (length p.saved_names) then record p { saved_index = some i } else p
panel_step q (press_save written answer) p = on_save_search q written answer p
panel_step q press_load p = on_load_saved q p
panel_step q (press_delete written) p = on_delete_saved q written p
panel_step q (results_arrive rs) p = set_panel_results q rs p
panel_step q (progress_arrives n) p = set_progress n p
panel_step q (searching_arrives b) p = set_searching b p

unfoldable pub panel_run : Toolkit → List PanelEvent → SearchPanel → SearchPanel
panel_run q [] p = p
panel_run q (e ∷ es) p = panel_run q es (panel_step q e p)
