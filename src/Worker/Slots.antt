-- ===== src/Worker/Slots.antt =====
-- The remaining slots of core/ec/worker.cpp, and all but shutdown as commands. A command comes with
-- the clock `now` at which it runs.
use amule_remote_qt.Base.{ℕ, true, false, Option, none, some, List, [], ◌∷◌, ◌++◌}
use amule_remote_qt.Ec.Bytes.{Bytes, Text, Qt, text}
use amule_remote_qt.Ec.Tag.{Hash16}
use amule_remote_qt.Ec.Outcome.{Outcome, EcError, ok, err, out_of_fuel}
use amule_remote_qt.Ec.Client.Password.{normalize_password_md5}
use amule_remote_qt.Model.Types.{SearchParams}
use amule_remote_qt.Model.Prefs.{DaemonPrefs}
use amule_remote_qt.Queries.Requests
use amule_remote_qt.Queries.ReadPrefs
use amule_remote_qt.Queries.WritePrefs
use amule_remote_qt.Worker.State.{
  connecting, connected, error, status_changed, log_message, search_progress_changed,
  search_results_updated, searching_changed, prefs_updated, Worker, emit, Daemon,
}
use amule_remote_qt.Worker.Commands.{
  end_search, disconnect_from_daemon, report, not_connected, keep_client, on_refresh, run_connected,
}

-- Every slot with its arguments but `shutdown`, after which the worker's thread ends; `refresh` is
-- the timer's.
pub data Command : Type 0 where
  connect_to_daemon : Text → ℕ → Text → Command
  disconnect : Command
  pause resume stop remove : Hash16 → Command
  set_priority : Hash16 → ℕ → Command
  clear_completed : Command
  add_link : Text → Command
  connect_networks disconnect_networks start_kad stop_kad : Command
  start_search : SearchParams → Command
  stop_search : Command
  download_result : Hash16 → Command
  server_connect : Bytes → ℕ → Command
  server_connect_any server_disconnect : Command
  server_remove : Bytes → ℕ → Command
  server_add : Text → Text → Command
  server_update_from_url : Text → Command
  reload_shared fetch_prefs : Command
  apply_prefs : DaemonPrefs → Command
  refresh : Command

module _ {S : Type 0} (qt : Qt) (d : Daemon S) where
  abbrev pub at_address : Text → ℕ → Text
  at_address host port = host ++ b':' ∷ qt.decimal port

  -- The preferences that arrive are shown; a failure is passed over.
  unfoldable pub show_prefs : Outcome DaemonPrefs → Worker S → Worker S
  show_prefs (ok prefs) w = emit (prefs_updated prefs) w
  show_prefs (err e) w = w
  show_prefs out_of_fuel w = w

  unfoldable pub load_prefs : S → Worker S → Worker S
  load_prefs s w = let (r, t) = ReadPrefs.fetch_prefs d.send s in show_prefs r (keep_client t w)

  -- The new client is kept, and announced.
  abbrev pub announce_client : S → Worker S → Worker S
  announce_client s w = emit (status_changed connected (d.version s)) (
      emit (log_message (text "connected — daemon " ++ d.version s)) (record w { client = some s }))

  unfoldable pub after_connect : ℕ → Outcome S → Worker S → Worker S
  after_connect now (ok s) w =
      on_refresh d now (record (load_prefs s (announce_client s w)) { refreshing = true })
  after_connect now (err e) w =
      emit (status_changed error e.message)
        (emit (log_message (text "connection failed: " ++ e.message)) w)
  after_connect now out_of_fuel w = w

  unfoldable pub connect_daemon : ℕ → Text → ℕ → Text → Worker S → Worker S
  connect_daemon now host port password w =
      let address = at_address host port in
      after_connect now (d.connect host port (normalize_password_md5 qt password)) (
        emit (log_message (text "connecting to " ++ (address ++ text "…")))
          (emit (status_changed connecting address) (record w { sources = [] })))

  -- A search that could not be started.
  unfoldable pub fail_search : EcError → Worker S → Worker S
  fail_search e w =
      report (text "search failed: ") e
        (emit (searching_changed false) (record w { searching = false }))

  unfoldable pub after_start : ℕ → Outcome (Unit {0}) → Worker S → Worker S
  after_start now (ok u) w = on_refresh d now w
  after_start now (err e) w = fail_search e w
  after_start now out_of_fuel w = w

  unfoldable pub announce_search : SearchParams → Worker S → Worker S
  announce_search params w = record w {
    searching = true;
    at100 = false;
    emitted =
        w.emitted
        ++ (searching_changed true
            ∷ (search_results_updated []
                ∷ (search_progress_changed 0
                    ∷ (log_message (text "searching for \"" ++ (params.text ++ text "\"…"))
                        ∷ []))));
  }

  unfoldable pub start_with : ℕ → SearchParams → Option S → Worker S → Worker S
  start_with now params none w = not_connected w
  start_with now params (some s) w =
      let (r, t) = Requests.start_search d.send params s in
      after_start now r (keep_client t (announce_search params w))

  unfoldable pub after_fetch : Outcome DaemonPrefs → Worker S → Worker S
  after_fetch (ok prefs) w = emit (prefs_updated prefs) w
  after_fetch (err e) w = report (text "fetch prefs failed: ") e w
  after_fetch out_of_fuel w = w

  unfoldable pub fetch_with : Option S → Worker S → Worker S
  fetch_with none w = not_connected w
  fetch_with (some s) w =
      let (r, t) = ReadPrefs.fetch_prefs d.send s in after_fetch r (keep_client t w)

  unfoldable pub after_apply : Outcome (Unit {0}) → S → Worker S → Worker S
  after_apply (ok u) s w = load_prefs s (emit (log_message (text "preferences applied")) w)
  after_apply (err e) s w = report (text "apply prefs failed: ") e w
  after_apply out_of_fuel s w = w

  unfoldable pub apply_with : DaemonPrefs → Option S → Worker S → Worker S
  apply_with prefs none w = not_connected w
  apply_with prefs (some s) w =
      let (r, t) = WritePrefs.set_prefs d.send prefs s in after_apply r t (keep_client t w)

  unfoldable pub step : ℕ → Command → Worker S → Worker S
  step now (connect_to_daemon host port password) w = connect_daemon now host port password w
  step now disconnect w = disconnect_from_daemon w
  step now (pause h) w = run_connected d now (Requests.pause_download d.send h) w
  step now (resume h) w = run_connected d now (Requests.resume_download d.send h) w
  step now (stop h) w = run_connected d now (Requests.stop_download d.send h) w
  step now (remove h) w = run_connected d now (Requests.delete_download d.send h) w
  step now (set_priority h prio) w = run_connected d now (Requests.set_priority d.send h prio) w
  step now clear_completed w = run_connected d now (Requests.clear_completed d.send) w
  step now (add_link link) w = run_connected d now (Requests.add_ed2k_link d.send link) w
  step now connect_networks w = run_connected d now (Requests.connect_networks d.send) w
  step now disconnect_networks w = run_connected d now (Requests.disconnect_networks d.send) w
  step now start_kad w = run_connected d now (Requests.start_kad d.send) w
  step now stop_kad w = run_connected d now (Requests.stop_kad d.send) w
  step now (start_search params) w = start_with now params w.client w
  step now stop_search w = run_connected d now (Requests.stop_search d.send) (end_search w)
  step now (download_result h) w = run_connected d now (Requests.download_search_result d.send h) w
  step now (server_connect ip port) w =
      run_connected d now (Requests.server_connect d.send ip port) w
  step now server_connect_any w = run_connected d now (Requests.server_connect_any d.send) w
  step now server_disconnect w = run_connected d now (Requests.server_disconnect d.send) w
  step now (server_remove ip port) w = run_connected d now (Requests.server_remove d.send ip port) w
  step now (server_add name address) w =
      run_connected d now (Requests.server_add d.send name address) w
  step now (server_update_from_url url) w =
      run_connected d now (Requests.server_update_from_url d.send url) w
  step now reload_shared w = run_connected d now (Requests.reload_shared_files d.send) w
  step now fetch_prefs w = fetch_with w.client w
  step now (apply_prefs prefs) w = apply_with prefs w.client w
  step now refresh w = on_refresh d now w

  -- A history: the commands in the order in which the worker's thread takes them.
  unfoldable pub run : List (ℕ × Command) → Worker S → Worker S
  run [] w = w
  run ((now, c) ∷ cs) w = run cs (step now c w)
