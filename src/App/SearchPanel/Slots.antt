-- ===== src/App/SearchPanel/Slots.antt =====
-- The slots of app/searchpanel.cpp for its buttons.
use amule_remote_qt.Base.{Bool, true, false, Option, none, some, List, [], ◌∷◌, if◌then◌else◌}
use amule_remote_qt.Ec.Bytes.{Bytes, Text}
use amule_remote_qt.Model.Types.{global}
use amule_remote_qt.App.SearchFilter.{is_empty}
use amule_remote_qt.App.SavedSearches.{SavedSearch, save, load}
use amule_remote_qt.App.Tables.{at_row, is_empty as is_none}
use amule_remote_qt.App.SearchPanel.{
  Toolkit, search_requested, SearchPanel, send, network_data, type_data, new_controls,
}
use amule_remote_qt.App.SearchPanel.Tabs.{update_download_enabled, make_result_tab}
use amule_remote_qt.App.SearchPanel.Choices.{
  remove_saved, spin_value, clamp_index, store_search, find_text, refresh_saved_combo, saved_at,
  saved_of, set_filter_text, set_negate, set_glob, set_regex, set_only_complete, set_min_sources,
  set_max_sources,
}

module _ (q : Toolkit) where
  unfoldable pub on_search : SearchPanel → SearchPanel
  on_search p =
      let query = q.matching.trimmed p.controls.query in
      if is_empty query
      then p
      else send
          (search_requested (record {
            text = query;
            kind = at_row global p.controls.kind_index network_data;
            file_type = at_row [] p.controls.type_index type_data;
            min_size = 0;
            max_size = 0;
          }))
          (update_download_enabled (record (make_result_tab q query p) { live = some p.next_view }))

  -- `none` where the dialog is cancelled; `written` is whether the file could be written.
  unfoldable pub on_save_search : Bool → Option Text → SearchPanel → SearchPanel
  on_save_search written none p = p
  on_save_search written (some answer) p =
      let name = q.matching.trimmed answer in
      let saved = store_search (saved_of name p.controls) p.saved in
      let refreshed =
        refresh_saved_combo
          (record p { saved = saved; stored = save q.format written p.stored saved }) in
      if is_empty name then p else record refreshed {
        saved_index = elim (find_text name refreshed.saved_names) [
          | none ↦ refreshed.saved_index
          | some i ↦ some i
        ];
      }

  -- The part of `onLoadSaved` that writes the controls.
  unfoldable pub fill_controls : SavedSearch → SearchPanel → SearchPanel
  fill_controls s p = set_max_sources q (spin_value s.max_sources) (
      set_min_sources q (spin_value s.min_sources) (
        set_only_complete q s.only_complete (
          set_regex q s.filter_regex (
            set_glob q s.filter_glob (
              set_negate q s.filter_negate (
                set_filter_text q s.filter_text (record p {
                  controls = record p.controls {
                    query = s.text;
                    kind_index = clamp_index s.kind_index 3;
                    type_index = clamp_index s.type_index 7;
                  };
                })))))))

  abbrev pub load_chosen : List SavedSearch → SearchPanel → SearchPanel
  load_chosen [] p = p
  load_chosen (s ∷ ss) p = on_search (fill_controls s p)

  unfoldable pub on_load_saved : SearchPanel → SearchPanel
  on_load_saved p = load_chosen (saved_at p.saved_index p.saved) p

  unfoldable pub on_delete_saved : Bool → SearchPanel → SearchPanel
  on_delete_saved written p =
      let saved = remove_saved p.saved_index p.saved in
      if is_none (saved_at p.saved_index p.saved)
      then p
      else refresh_saved_combo
          (record p { saved = saved; stored = save q.format written p.stored saved })

  -- The panel as it is built, with the file of saved searches.
  unfoldable pub new_panel : Bytes → SearchPanel
  new_panel file = update_download_enabled (
      refresh_saved_combo (record {
        controls = new_controls;
        tabs = [];
        next_view = 0;
        current = none;
        live = none;
        download_enabled = true;
        progress = 0;
        progress_visible = false;
        saved = load q.format file;
        stored = file;
        saved_names = [];
        saved_index = none;
        saved_enabled = true;
        emitted = [];
      }))
