-- ===== src/Examples/Panel.antt =====
-- The search panel at concrete inputs.
use amule_remote_qt.Base.{◌+◌, ◌≡◌, ◌⊎◌, refl, true, some, List, [], ◌∷◌, ◌++◌, map, All, arith}
use amule_remote_qt.Ec.Bytes.{text}
use amule_remote_qt.App.SavedSearches.{load, load_lines, lines, clean, replace}
use amule_remote_qt.App.SavedSearches.Reload.{IsStorable, cleaned}
use amule_remote_qt.App.SearchPanel.{
  Toolkit, Controls, SearchPanel, new_controls, download_requested,
}
use amule_remote_qt.App.SearchPanel.Tabs.{
  update_download_enabled, make_result_tab, on_current_tab_changed, set_panel_results, refill,
  update_anchor, apply_filter_to_current,
}
use amule_remote_qt.App.SearchPanel.Downloads.{
  MenuChoice, download, download_selected, on_download, request_rows, on_result_context_menu,
  results_meanwhile, select_rows,
}
use amule_remote_qt.App.Tables.{set_results, set_rows, same_layout, result_hash_at}
use amule_remote_qt.App.SearchPanel.Choices.{saved_of, store_search, refresh_saved_combo}
use amule_remote_qt.App.SearchPanel.Slots.{new_panel, on_search, fill_controls, on_save_search}
use amule_remote_qt.App.SearchPanel.Events.{
  PanelEvent, edit_query, check_glob, check_regex, edit_filter, press_search, press_download,
  open_menu, close_tab, change_selection, press_save, results_arrive, panel_step, panel_run,
}
use amule_remote_qt.App.SearchPanel.Invariant.{PanelInv}
use amule_remote_qt.App.SearchPanel.Histories.{panel_run-new_panel-PanelInv}
use amule_remote_qt.App.SearchPanel.Filtered.{Filtered}
use amule_remote_qt.App.SearchPanel.Filtered.Histories.{panel_run-new_panel-Filtered}
use amule_remote_qt.App.SearchPanel.Requested.{Asks}
use amule_remote_qt.App.SearchPanel.Requested.Steps.{panel_step-Asks}
use amule_remote_qt.App.SearchPanel.SavedMap.{find_saved}
use amule_remote_qt.App.SearchPanel.SavedMap.Histories.{
  map_run, find_saved-panel_run-new_panel, saved-new_panel-panel_run,
}
use amule_remote_qt.App.SearchPanel.Restored.{controls-fill_controls}
use amule_remote_qt.Model.Types.{new_search_result}
use amule_remote_qt.Examples.Interface.{first_char}
use amule_remote_qt.Examples.Saved.{in_ones, IsSolid, in_ones-IsFormat}

abbrev pub plain_toolkit : Toolkit
plain_toolkit = record {
  matching = first_char;
  format = in_ones;
  arg = λ pattern argument. pattern ++ argument;
  decimal = λ n. (b'0' + n) ∷ [];
}

-- Two searches, results in the second tab, a download, a saved search, and the second tab closed.
abbrev pub two_searches : List PanelEvent
two_searches =
    edit_query (text "iso")
    ∷ (press_search
        ∷ (check_regex true
            ∷ (check_glob true
                ∷ (edit_filter (text "i*")
                    ∷ (press_search
                        ∷ (results_arrive (record new_search_result { hash = 1 ∷ [] } ∷ [])
                            ∷ (change_selection 1 (0 ∷ [])
                                ∷ (press_download
                                    ∷ (press_save true (some (text "isos"))
                                        ∷ (close_tab 1 0 true ∷ []))))))))))

panel_run-new_panel-PanelInv_example :
    PanelInv (panel_run plain_toolkit two_searches (new_panel plain_toolkit []))
panel_run-new_panel-PanelInv_example = panel_run-new_panel-PanelInv plain_toolkit [] two_searches

panel_run-new_panel-Filtered_example :
    Filtered (panel_run plain_toolkit two_searches (new_panel plain_toolkit []))
panel_run-new_panel-Filtered_example = panel_run-new_panel-Filtered plain_toolkit [] two_searches

-- The panel before the download.
abbrev with_selection : SearchPanel
with_selection =
    panel_run plain_toolkit
      (edit_query (text "iso")
        ∷ (press_search
            ∷ (results_arrive (record new_search_result { hash = 1 ∷ [] } ∷ [])
                ∷ (change_selection 0 (0 ∷ []) ∷ []))))
      (new_panel plain_toolkit [])

panel_step-Asks_example :
    Asks with_selection (panel_step plain_toolkit press_download with_selection)
panel_step-Asks_example = panel_step-Asks plain_toolkit press_download with_selection

-- Results that replace the selected one while the menu is open clear the selection; the result that
-- was clicked is still asked for.
abbrev with_menu : MenuChoice → SearchPanel
with_menu choice =
    let arrivals = (record new_search_result { hash = 2 ∷ [] } ∷ []) ∷ [] in
    panel_step plain_toolkit (open_menu (some 0) 0 arrivals choice) with_selection

replaced_selection : (with_menu download_selected).emitted ≡ with_selection.emitted
unfolding panel_run panel_step new_panel load load_lines lines on_search make_result_tab
    on_current_tab_changed set_panel_results refill set_results set_rows same_layout select_rows
    on_result_context_menu results_meanwhile on_download update_download_enabled update_anchor
    apply_filter_to_current request_rows refresh_saved_combo
replaced_selection = refl

clicked_result :
    (with_menu download).emitted ≡ with_selection.emitted ++ download_requested (1 ∷ []) ∷ []
unfolding panel_run panel_step new_panel load load_lines lines on_search make_result_tab
    on_current_tab_changed set_panel_results refill set_results set_rows same_layout select_rows
    on_result_context_menu results_meanwhile on_download update_download_enabled update_anchor
    apply_filter_to_current request_rows result_hash_at refresh_saved_combo
clicked_result = refl

find_saved-panel_run-new_panel_example :
    find_saved (panel_run plain_toolkit two_searches (new_panel plain_toolkit [])).saved
    ≡ map_run plain_toolkit two_searches (new_panel plain_toolkit []) (find_saved (load in_ones []))
unfolding load lines load_lines
find_saved-panel_run-new_panel_example =
    find_saved-panel_run-new_panel plain_toolkit [] two_searches tt

abbrev saving : List PanelEvent
saving = edit_query (text "iso") ∷ (press_save true (some (text "isos")) ∷ [])

abbrev saved_panel : SearchPanel
saved_panel = panel_run plain_toolkit saving (new_panel plain_toolkit [])

saved_panel-IsStorable : All (IsStorable in_ones IsSolid) saved_panel.saved
unfolding panel_run panel_step new_panel load load_lines lines clean replace on_save_search
    refresh_saved_combo store_search saved_of update_download_enabled
saved_panel-IsStorable = (
  record {
    begins = (b'i', _, refl, omega arith);
    carried = refl;
    kind_fits = omega arith;
    type_fits = omega arith;
    min_fits = omega arith;
    max_fits = omega arith;
  },
  tt,
)

saved-new_panel-panel_run_example :
    ((new_panel plain_toolkit saved_panel.stored).saved ≡ saved_panel.saved)
    ⊎ ((new_panel plain_toolkit saved_panel.stored).saved
        ≡ map (cleaned in_ones IsSolid) saved_panel.saved)
unfolding load lines load_lines
saved-new_panel-panel_run_example =
    saved-new_panel-panel_run plain_toolkit IsSolid in_ones-IsFormat [] saving tt (refl, (refl, tt))
      saved_panel-IsStorable

abbrev some_controls : Controls
some_controls = record new_controls {
  query = text "iso";
  kind_index = 2;
  glob = true;
  min_sources = 5;
}

controls-fill_controls_example :
    (fill_controls plain_toolkit
      (saved_of (text "isos") some_controls)
      (new_panel plain_toolkit [])).controls
    ≡ record some_controls { anchor = (new_panel plain_toolkit []).controls.anchor }
unfolding new_panel update_download_enabled refresh_saved_combo
controls-fill_controls_example =
    controls-fill_controls plain_toolkit (text "isos") some_controls (new_panel plain_toolkit [])
      (record {
        network = omega arith;
        file_type = omega arith;
        least = omega arith;
        most = omega arith;
        exclusive = refl;
      })
      refl
