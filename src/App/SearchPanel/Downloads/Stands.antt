-- ===== src/App/SearchPanel/Downloads/Stands.antt =====
-- What a signal leaves standing, the requests of app/searchpanel.cpp for downloads leave standing.
use amule_remote_qt.Base.{ℕ, Option, List, [], ◌∷◌, if_both}
use amule_remote_qt.Model.Types.{SearchResult}
use amule_remote_qt.App.Tables.{result_hash_at}
use amule_remote_qt.App.SearchPanel.{
  Toolkit, ResultTab, download_requested, PanelSignal, SearchPanel, send,
}
use amule_remote_qt.App.SearchPanel.Tabs.{same_view, tabs_of, set_panel_results}
use amule_remote_qt.App.SearchPanel.Downloads
use amule_remote_qt.App.SearchPanel.Downloads.{
  is_zero_hash, request_rows, request_selected, request_clicked, on_download, MenuChoice,
  results_meanwhile, on_result_context_menu,
}

module _ (P : SearchPanel → Type 0)
    (stands : (s : PanelSignal) (p : SearchPanel) → P p → P (send s p)) where
  pub request_rows_stands :
      (rows : List ℕ) (rs : List SearchResult) (p : SearchPanel) → P p → P (request_rows rows rs p)
  unfolding request_rows
  request_rows_stands [] rs p h = h
  request_rows_stands (row ∷ rows) rs p h = request_rows_stands rows rs _ (
      if_both P (is_zero_hash (result_hash_at row rs)) h
        (stands (download_requested (result_hash_at row rs)) p h))

  request_selected_stands :
      (ts : List ResultTab) (p : SearchPanel) → P p → P (request_selected ts p)
  request_selected_stands [] p h = h
  request_selected_stands (t ∷ ts) p h = request_rows_stands t.selected t.results p h

  pub on_download_stands : (p : SearchPanel) → P p → P (on_download p)
  unfolding on_download
  on_download_stands p h =
      if_both P (same_view p.current p.live)
        (request_selected_stands (tabs_of p.current p.tabs) p h) h

  request_clicked_stands :
      (row : ℕ) (ts : List ResultTab) (p : SearchPanel) → P p → P (request_clicked row ts p)
  request_clicked_stands row [] p h = h
  request_clicked_stands row (t ∷ ts) p h = request_rows_stands (row ∷ []) t.results p h

  results_meanwhile_stands :
      (q : Toolkit)
      → ((rs : List SearchResult) (p : SearchPanel) → P p → P (set_panel_results q rs p))
      → (arrivals : List (List SearchResult)) (p : SearchPanel) → P p
      → P (results_meanwhile q arrivals p)
  unfolding results_meanwhile
  results_meanwhile_stands q fills [] p h = h
  results_meanwhile_stands q fills (rs ∷ rss) p h =
      results_meanwhile_stands q fills rss (set_panel_results q rs p) (fills rs p h)

  pub on_result_context_menu_stands :
      (q : Toolkit)
      → ((rs : List SearchResult) (p : SearchPanel) → P p → P (set_panel_results q rs p))
      → (view : Option ℕ) (row : ℕ) (arrivals : List (List SearchResult)) (choice : MenuChoice)
      → (p : SearchPanel) → P p
      → P (on_result_context_menu q view row arrivals choice p)
  unfolding on_result_context_menu
  on_result_context_menu_stands q fills view row arrivals Downloads.download p h =
      let k = results_meanwhile_stands q fills arrivals p h in
      if_both P (same_view view p.live)
        (request_clicked_stands row (tabs_of view p.tabs) (results_meanwhile q arrivals p) k) k
  on_result_context_menu_stands q fills view row arrivals Downloads.download_selected p h =
      let k = results_meanwhile_stands q fills arrivals p h in
      if_both P (same_view view p.live) (on_download_stands (results_meanwhile q arrivals p) k) k
  on_result_context_menu_stands q fills view row arrivals Downloads.detail p h =
      results_meanwhile_stands q fills arrivals p h
  on_result_context_menu_stands q fills view row arrivals Downloads.dismissed p h =
      results_meanwhile_stands q fills arrivals p h
