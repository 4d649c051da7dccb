-- ===== src/Examples/Threads.antt =====
-- The window and the worker together at concrete inputs, and the end of a search.
use amule_remote_qt.Base.{ℕ, ◌≡◌, refl, true, false, some, [], ◌∷◌, arith}
use amule_remote_qt.Ec.Bytes.{text}
use amule_remote_qt.Ec.Tag.{find}
use amule_remote_qt.Queries.Reads.{collect}
use amule_remote_qt.Model.Types.{new_search_params}
use amule_remote_qt.Queries.Fetches.{
  fetch_stats, fetch_downloads, fetch_conn_state, fetch_servers, fetch_shared_files,
  fetch_search_results, fetch_search_progress,
}
use amule_remote_qt.Queries.Sources.{fetch_client_update}
use amule_remote_qt.Worker.State.{Signal, Worker, new_worker, log_message}
use amule_remote_qt.Worker.Commands.{snapshot, search_state}
use amule_remote_qt.Worker.Slots.{Command, start_search, step, start_with}
use amule_remote_qt.Worker.Searching.Ends.{IsDone, refreshes, searching-refreshes}
use amule_remote_qt.App.SearchPanel.Tabs.{
  update_download_enabled, make_result_tab, on_current_tab_changed, update_anchor,
  apply_filter_to_current,
}
use amule_remote_qt.App.SearchPanel.Choices.{refresh_saved_combo}
use amule_remote_qt.App.SearchPanel.Slots.{new_panel, on_search}
use amule_remote_qt.App.SearchPanel.Events.{edit_query, press_search}
use amule_remote_qt.App.MainWindow.{Window}
use amule_remote_qt.App.MainWindow.Signals.{take_signal}
use amule_remote_qt.App.MainWindow.Inputs.{in_search_panel, take_input}
use amule_remote_qt.App.MainWindow.Actions.{in_panel, command_of}
use amule_remote_qt.App.SearchPanel.Events.{panel_step}
use amule_remote_qt.App.System.{System, started, Reaches, here, next, acts, serves, hears}
use amule_remote_qt.App.System.Agreement.{progress_bar-searching}
use amule_remote_qt.Examples.Desk.{zero_qt, plain_desktop, a_window, done_daemon}

done_daemon-IsDone : IsDone done_daemon
unfolding snapshot search_state fetch_stats fetch_downloads fetch_conn_state fetch_servers
    fetch_shared_files fetch_search_results fetch_search_progress fetch_client_update find collect
done_daemon-IsDone = record { answers = λ m s. (_, refl); done = λ s. (100, _, refl, refl) }

abbrev searching_worker : Worker ℕ
searching_worker = record new_worker { client = some 5; refreshing = true; searching = true }

searching-refreshes_example :
    (refreshes done_daemon (1_000 ∷ (2_000 ∷ (13_000 ∷ []))) searching_worker).searching ≡ false
searching-refreshes_example =
    searching-refreshes done_daemon done_daemon-IsDone 1_000 13_000 (2_000 ∷ []) searching_worker 5
      refl (omega arith) (omega arith)

-- The search is asked for while there is no connection: the worker says so.
abbrev asked_window : Window
asked_window =
    take_input plain_desktop (in_search_panel press_search)
      (take_input plain_desktop (in_search_panel (edit_query (text "iso"))) a_window)

abbrev search_slot : Command
search_slot = start_search (record new_search_params { text = text "iso" })

abbrev served : System ℕ
served = record {
  worker = step zero_qt done_daemon 0 search_slot new_worker;
  window = record asked_window { queue = [] };
  heard = [];
}

abbrev refusal : Signal
refusal = log_message (text "not connected — command ignored")

abbrev told : System ℕ
told = record served {
  window = take_signal plain_desktop refusal served.window;
  heard = refusal ∷ [];
}

told-Reaches : Reaches plain_desktop done_daemon (started a_window) told
unfolding take_input in_panel panel_step new_panel update_download_enabled refresh_saved_combo
    on_search make_result_tab on_current_tab_changed update_anchor apply_filter_to_current
    command_of step start_with
told-Reaches =
    next
      (next
        (next (next here (acts (in_search_panel (edit_query (text "iso")))))
          (acts (in_search_panel press_search)))
        (serves 0 search_slot [] refl))
      (hears refusal [] refl)

progress_bar-searching_example : told.window.panel.progress_visible ≡ told.worker.searching
unfolding new_panel update_download_enabled refresh_saved_combo step start_with
progress_bar-searching_example =
    progress_bar-searching plain_desktop done_daemon a_window told refl told-Reaches refl
