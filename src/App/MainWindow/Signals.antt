-- ===== src/App/MainWindow/Signals.antt =====
-- How app/mainwindow.cpp takes the worker's signals.
use amule_remote_qt.Base.{Bool, true, false, not, ◌&&◌, leb, List, [], ◌∷◌, if◌then◌else◌}
use amule_remote_qt.Ec.Bytes.{Text, text}
use amule_remote_qt.Model.Types.{Stats, Download, ConnState}
use amule_remote_qt.Model.Figures.{human_rate, human_count}
use amule_remote_qt.Worker.State
use amule_remote_qt.Worker.State.{ConnStatus, disconnected, connecting, connected, error, Signal}
use amule_remote_qt.App.Tables.{set_downloads, set_servers, set_files, set_sources}
use amule_remote_qt.App.Transfers
use amule_remote_qt.App.Transfers.{display}
use amule_remote_qt.App.SpeedGraph
use amule_remote_qt.App.SearchPanel.Tabs.{set_panel_results}
use amule_remote_qt.App.SearchPanel.Downloads.{set_progress, set_searching}
use amule_remote_qt.App.PreferencesPanel.Form.{set_form}
use amule_remote_qt.App.MainWindow.{Desktop, Window, on_log}

-- `Stats::isHighId`.
unfoldable pub is_high_id : Stats → Bool
is_high_id s = leb 16777216 s.ed2k_id

unfoldable pub refresh_download_view : Window → Window
refresh_download_view w = record w {
  downloads = (set_downloads (display w.transfers) w.downloads).0;
}

unfoldable pub on_downloads_updated : List Download → Window → Window
on_downloads_updated ds w =
    refresh_download_view (record w { transfers = Transfers.downloads_updated ds w.transfers })

abbrev is_connected : ConnStatus → Bool
is_connected connected = true
is_connected _ = false

abbrev is_connecting : ConnStatus → Bool
is_connecting connecting = true
is_connecting _ = false

module _ (d : Desktop) where
  abbrev fill : Text → Text → Text
  fill pattern argument = d.toolkit.arg (d.tr pattern) argument

  abbrev status_text : ConnStatus → Text → Text
  status_text disconnected detail = d.tr (text "Disconnected")
  status_text connecting detail = fill (text "Connecting to %1…") detail
  status_text connected detail = fill (text "Connected — daemon %1") detail
  status_text error detail = fill (text "Error: %1") detail

  abbrev status_color : ConnStatus → Text
  status_color disconnected = []
  status_color connecting = text "#d9a441"
  status_color connected = text "#4cc06a"
  status_color error = text "#d9534f"

  unfoldable pub on_status_changed : ConnStatus → Text → Window → Window
  on_status_changed status detail w =
      let up = is_connected status in
      record w {
        status_text = status_text status detail;
        status_color = status_color status;
        transfers = Transfers.status_changed status w.transfers;
        connect_enabled = not up && not (is_connecting status);
        disconnect_enabled = up;
        connected = up;
        net_text = if up then w.net_text else [];
        stats_text = if up then w.stats_text else [];
        graph = if up then w.graph else SpeedGraph.clear w.graph;
      }

  unfoldable pub on_stats : Stats → Window → Window
  on_stats s w = record w {
    graph = SpeedGraph.add_sample s.dl_speed s.ul_speed w.graph;
    stats_text = d.args (d.tr (text "↓ %1   ↑ %2   ed2k %3 users%4")) (
        human_rate d.qt d.figures s.dl_speed
        ∷ (human_rate d.qt d.figures s.ul_speed
            ∷ (human_count d.qt d.figures s.ed2k_users
                ∷ ((if is_high_id s then d.tr (text "   HighID") else []) ∷ []))));
  }

  unfoldable pub on_conn_state : ConnState → Window → Window
  on_conn_state c w =
      let ed2k =
        if c.ed2k_connected
        then fill (text "ed2k: %1") c.ed2k_server
        else d.tr (text "ed2k: off") in
      let kad = if c.kad_connected then d.tr (text "Kad: on") else d.tr (text "Kad: off") in
      record w { net_text = d.args (text "%1   |   %2") (ed2k ∷ (kad ∷ [])) }

  -- The connections that `wireWorker` makes from the worker's signals.
  unfoldable pub take_signal : Signal → Window → Window
  take_signal (State.status_changed status detail) w = on_status_changed status detail w
  take_signal (State.stats_updated s) w = on_stats s w
  take_signal (State.conn_state_updated c) w = on_conn_state c w
  take_signal (State.prefs_updated prefs) w = record w { form = set_form prefs }
  take_signal (State.log_message message) w = on_log message w
  take_signal (State.downloads_updated ds) w = on_downloads_updated ds w
  take_signal (State.search_results_updated rs) w = record w {
    panel = set_panel_results d.toolkit rs w.panel;
  }
  take_signal (State.search_progress_changed n) w = record w { panel = set_progress n w.panel }
  take_signal (State.searching_changed b) w = record w { panel = set_searching b w.panel }
  take_signal (State.servers_updated ss) w = record w { servers = (set_servers ss w.servers).0 }
  take_signal (State.shared_files_updated fs) w = record w { shared = (set_files fs w.shared).0 }
  take_signal (State.sources_updated cs) w = record w { sources = set_sources cs w.sources }
