-- ===== src/Worker/Commands.antt =====
-- The slots of core/ec/worker.cpp. `now` is the clock that the search's timer reads, in
-- milliseconds.
use amule_remote_qt.Base.{
  ℕ, ◌-◌, Bool, true, false, Option, none, some, List, [], ◌∷◌, ◌++◌, map, leb, if◌then◌else◌,
}
use amule_remote_qt.Ec.Bytes.{Text, text}
use amule_remote_qt.Ec.Outcome.{Outcome, Call, Kind, EcError, ok, err, out_of_fuel, io, pure, ◌>>=◌}
use amule_remote_qt.Model.Types.{
  Stats, Download, ConnState, Server, SharedFile, SourceClient, SearchResult,
}
use amule_remote_qt.Queries.Fetches.{
  fetch_stats, fetch_downloads, fetch_conn_state, fetch_servers, fetch_shared_files,
  fetch_search_results, fetch_search_progress,
}
use amule_remote_qt.Queries.Sources.{Sources, fetch_client_update}
use amule_remote_qt.Worker.State.{
  ConnStatus, disconnected, error, status_changed, log_message, stats_updated, downloads_updated,
  conn_state_updated, servers_updated, shared_files_updated, sources_updated,
  search_progress_changed, search_results_updated, searching_changed, Worker, emit, Daemon,
}

abbrev pub search_grace_ms : ℕ
search_grace_ms = 12_000

abbrev pub is_io : Kind → Bool
is_io io = true
is_io _ = false

-- What the first part of a refresh reads.
pub record Snapshot : Type 0 where
  pub stats : Stats
  pub downloads : List Download
  pub conn : ConnState
  pub servers : List Server
  pub shared_files : List SharedFile
  pub sources : Sources

module _ {S : Type 0} where
  unfoldable pub end_search : Worker S → Worker S
  end_search w =
      if w.searching then emit (searching_changed false) (record w { searching = false }) else w

  unfoldable pub teardown : Text → ConnStatus → Worker S → Worker S
  teardown reason status w =
      emit (status_changed status reason)
        (end_search (record w { refreshing = false; client = none; sources = [] }))

  unfoldable pub shutdown : Worker S → Worker S
  shutdown w = record w { refreshing = false; client = none; sources = [] }

  unfoldable pub disconnect_from_daemon : Worker S → Worker S
  disconnect_from_daemon w =
      emit (log_message (text "disconnected")) (teardown (text "disconnected") disconnected w)

  -- The lambda `fail` of `onRefresh`.
  unfoldable pub lose : EcError → Worker S → Worker S
  lose e w = teardown e.message error (emit (log_message (text "connection lost: " ++ e.message)) w)

  -- A transport error ends the connection; any other is only logged.
  unfoldable pub report : Text → EcError → Worker S → Worker S
  report prefix e w =
      let logged = emit (log_message (prefix ++ e.message)) w in
      if is_io e.kind then teardown e.message error logged else logged

  abbrev pub not_connected : Worker S → Worker S
  not_connected = emit (log_message (text "not connected — command ignored"))

  -- The end of a search twelve seconds after its progress first read 100.
  unfoldable pub track_progress : ℕ → ℕ → Worker S → Worker S
  track_progress now progress w =
      if leb 100 progress
      then (if w.at100
          then (if leb search_grace_ms (now - w.at100_since)
              then emit (searching_changed false) (record w { searching = false; at100 = false })
              else w)
          else record w { at100 = true; at100_since = now })
      else record w { at100 = false }

  -- The client after a call on it.
  abbrev pub keep_client : S → Worker S → Worker S
  keep_client s w = record w { client = some s }

  module _ (d : Daemon S) where
    -- `std::stable_sort`, the fastest source first.
    unfoldable pub insert_by_speed : SourceClient → List SourceClient → List SourceClient
    insert_by_speed c [] = c ∷ []
    insert_by_speed c (e ∷ es) =
        if d.greater e.down_speed c.down_speed then e ∷ insert_by_speed c es else c ∷ e ∷ es

    unfoldable pub sort_by_speed : List SourceClient → List SourceClient
    sort_by_speed [] = []
    sort_by_speed (c ∷ cs) = insert_by_speed c (sort_by_speed cs)

    unfoldable pub snapshot : Sources → Call S Snapshot
    snapshot m = do
      stats ← fetch_stats d.send
      downloads ← fetch_downloads d.send
      conn ← fetch_conn_state d.send
      servers ← fetch_servers d.send
      shared ← fetch_shared_files d.send
      sources ← fetch_client_update d.to_double d.send m
      pure (record {
        stats = stats;
        downloads = downloads;
        conn = conn;
        servers = servers;
        shared_files = shared;
        sources = sources;
      })

    unfoldable pub show : Snapshot → Worker S → Worker S
    show snap w = record w {
      sources = snap.sources;
      emitted =
          w.emitted
          ++ (stats_updated snap.stats
              ∷ (downloads_updated snap.downloads
                  ∷ (conn_state_updated snap.conn
                      ∷ (servers_updated snap.servers
                          ∷ (shared_files_updated snap.shared_files
                              ∷ (sources_updated
                                    (sort_by_speed (map (λ e. e.1) (d.iterate snap.sources)))
                                  ∷ []))))));
    }

    unfoldable pub search_state : Call S (ℕ × List SearchResult)
    search_state = do
      progress ← fetch_search_progress d.send
      results ← fetch_search_results d.send
      pure (progress, results)

    -- A call that does not end leaves the worker waiting: no signal, no change but the client's.
    unfoldable pub after_search : ℕ → Outcome (ℕ × List SearchResult) → Worker S → Worker S
    after_search now (ok (progress, results)) w =
        track_progress now progress
          (emit (search_results_updated results) (emit (search_progress_changed progress) w))
    after_search now (err e) w = lose e w
    after_search now out_of_fuel w = w

    unfoldable pub refresh_search : ℕ → S → Worker S → Worker S
    refresh_search now s w =
        let (r, t) = search_state s in
        if w.searching then after_search now r (keep_client t w) else w

    unfoldable pub after_snapshot : ℕ → Outcome Snapshot → S → Worker S → Worker S
    after_snapshot now (ok snap) s w = refresh_search now s (show snap w)
    after_snapshot now (err e) s w = lose e w
    after_snapshot now out_of_fuel s w = w

    unfoldable pub refresh_with : ℕ → Option S → Worker S → Worker S
    refresh_with now none w = w
    refresh_with now (some s) w =
        let (r, t) = snapshot w.sources s in after_snapshot now r t (keep_client t w)

    unfoldable pub on_refresh : ℕ → Worker S → Worker S
    on_refresh now w = refresh_with now w.client w

    -- What follows a command's call.
    unfoldable pub after_command : ℕ → Text → Outcome (Unit {0}) → Worker S → Worker S
    after_command now prefix (ok u) w = on_refresh now w
    after_command now prefix (err e) w = report prefix e w
    after_command now prefix out_of_fuel w = w

    unfoldable pub run_with : ℕ → Call S (Unit {0}) → Option S → Worker S → Worker S
    run_with now call none w = not_connected w
    run_with now call (some s) w =
        let (r, t) = call s in after_command now (text "command failed: ") r (keep_client t w)

    unfoldable pub run_connected : ℕ → Call S (Unit {0}) → Worker S → Worker S
    run_connected now call w = run_with now call w.client w
