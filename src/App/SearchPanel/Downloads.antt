-- ===== src/App/SearchPanel/Downloads.antt =====
-- The downloads that app/searchpanel.cpp asks for, and what the worker shows in the panel.
pub mod Stands
use amule_remote_qt.Base.{ℕ, Bool, Option, some, List, [], ◌∷◌, leb, if◌then◌else◌, replicate}
use amule_remote_qt.Ec.Tag.{Hash16}
use amule_remote_qt.Model.Types.{SearchResult}
use amule_remote_qt.App.Tables.{bytes_equal, result_hash_at}
use amule_remote_qt.App.SearchPanel.{Toolkit, ResultTab, SearchPanel, send, download_requested}
use amule_remote_qt.App.SearchPanel.Tabs.{
  same_view, change_tab, tabs_of, set_panel_results, update_download_enabled, update_anchor,
}

abbrev pub is_zero_hash : Hash16 → Bool
is_zero_hash h = bytes_equal h (replicate 16 0)

-- The loop of `onDownload` over the selected rows.
unfoldable pub request_rows : List ℕ → List SearchResult → SearchPanel → SearchPanel
request_rows [] rs p = p
request_rows (row ∷ rows) rs p =
    let h = result_hash_at row rs in
    request_rows rows rs (if is_zero_hash h then p else send (download_requested h) p)

abbrev pub request_selected : List ResultTab → SearchPanel → SearchPanel
request_selected [] p = p
request_selected (t ∷ ts) p = request_rows t.selected t.results p

unfoldable pub on_download : SearchPanel → SearchPanel
on_download p =
    if same_view p.current p.live then request_selected (tabs_of p.current p.tabs) p else p

-- What the menu of a result is left with; the actions that download are enabled in the live tab.
pub data MenuChoice : Type 0 where
  detail download download_selected dismissed : MenuChoice

-- The loop's body for the row that was clicked.
abbrev pub request_clicked : ℕ → List ResultTab → SearchPanel → SearchPanel
request_clicked row [] p = p
request_clicked row (t ∷ ts) p = request_rows (row ∷ []) t.results p

-- The results that the worker delivers while `menu.exec` runs: the menu's loop takes the worker's
-- signals, and setResults is the one of them that changes the tabs.
unfoldable pub results_meanwhile : Toolkit → List (List SearchResult) → SearchPanel → SearchPanel
results_meanwhile q [] p = p
results_meanwhile q (rs ∷ rss) p = results_meanwhile q rss (set_panel_results q rs p)

-- The result that was clicked, and whether the tab is live, are taken before the menu opens; the
-- rows selected are those after it has closed. `showResultDetail` only shows a message.
unfoldable pub on_result_context_menu :
    Toolkit → Option ℕ → ℕ → List (List SearchResult) → MenuChoice → SearchPanel → SearchPanel
on_result_context_menu q view row arrivals download p =
    let after = results_meanwhile q arrivals p in
    if same_view view p.live then request_clicked row (tabs_of view p.tabs) after else after
on_result_context_menu q view row arrivals download_selected p =
    let after = results_meanwhile q arrivals p in
    if same_view view p.live then on_download after else after
on_result_context_menu q view row arrivals _ p = results_meanwhile q arrivals p

-- `setProgress`: QProgressBar ignores a value outside its range, 0 to 100.
unfoldable pub set_progress : ℕ → SearchPanel → SearchPanel
set_progress n p = if leb n 100 then record p { progress = n } else p

unfoldable pub set_searching : Bool → SearchPanel → SearchPanel
set_searching searching p = record p { progress_visible = searching }

-- The rows selected in a view change.
unfoldable pub select_rows : ℕ → List ℕ → SearchPanel → SearchPanel
select_rows view rows p = update_anchor (some view) (
    update_download_enabled
      (record p { tabs = change_tab (some view) (λ t. record t { selected = rows }) p.tabs }))

unfoldable pub set_anchor : Bool → SearchPanel → SearchPanel
set_anchor on p =
    update_anchor p.current (record p { controls = record p.controls { anchor = on } })
