-- ===== src/Worker/Searching/Histories.antt =====
-- Every slot of core/ec/worker.cpp but shutdown keeps what is shown of the search in step with what
-- holds.
use amule_remote_qt.Base.{
  ℕ, ◌≡◌, refl, true, false, Option, none, some, List, [], ◌∷◌, ◌++◌, append_assoc,
}
use amule_remote_qt.Ec.Bytes.{Text, Qt, text}
use amule_remote_qt.Ec.Outcome.{Outcome, ok, err, out_of_fuel}
use amule_remote_qt.Ec.Client.Password.{normalize_password_md5}
use amule_remote_qt.Model.Types.{SearchParams}
use amule_remote_qt.Model.Prefs.{DaemonPrefs}
use amule_remote_qt.Queries.ReadPrefs
use amule_remote_qt.Queries.Requests
use amule_remote_qt.Queries.WritePrefs
use amule_remote_qt.Worker.State.{
  Worker, Daemon, new_worker, emit, log_message, status_changed, connecting, error, connected,
  searching_changed, prefs_updated,
}
use amule_remote_qt.Worker.Commands.{keep_client, disconnect_from_daemon}
use amule_remote_qt.Worker.Slots.{
  at_address, show_prefs, load_prefs, announce_client, after_connect, connect_daemon, fail_search,
  after_start, announce_search, start_with, after_fetch, fetch_with, after_apply, apply_with,
  Command, step, run, connect_to_daemon, disconnect, start_search, stop_search, fetch_prefs,
  apply_prefs, refresh,
}
use amule_remote_qt.Worker.Searching.{
  shown, Told, emitted-Told, end_search-Told, teardown-Told, report-Told,
}
use amule_remote_qt.Worker.Searching.Shown.{
  like-Told, on_refresh-Told, ignored-Told, run_connected-Told,
}

module _ {S : Type 0} (qt : Qt) (d : Daemon S) where
  prefs-Told : (prefs : DaemonPrefs) (w : Worker S) → Told w → Told (emit (prefs_updated prefs) w)
  unfolding shown
  prefs-Told prefs w h =
      emitted-Told w (emit (prefs_updated prefs) w) (prefs_updated prefs ∷ []) h refl refl

  show_prefs-Told : (r : Outcome DaemonPrefs) (w : Worker S) → Told w → Told (show_prefs qt d r w)
  unfolding show_prefs
  show_prefs-Told (ok prefs) w h = prefs-Told prefs w h
  show_prefs-Told (err e) w h = h
  show_prefs-Told out_of_fuel w h = h

  load_prefs-Told : (s : S) (w : Worker S) → Told w → Told (load_prefs qt d s w)
  unfolding load_prefs
  load_prefs-Told s w h =
      let kept : Worker S = keep_client (ReadPrefs.fetch_prefs d.send s).1 w in
      show_prefs-Told (ReadPrefs.fetch_prefs d.send s).0 kept (like-Told w kept h refl refl)

  announce_client-Told : (s : S) (w : Worker S) → Told w → Told (announce_client qt d s w)
  unfolding shown
  announce_client-Told s w h =
      emitted-Told w (announce_client qt d s w)
        (log_message (text "connected — daemon " ++ d.version s)
          ∷ (status_changed connected (d.version s) ∷ []))
        h (append_assoc w.emitted _ _) refl

  after_connect-Told :
      (now : ℕ) (r : Outcome S) (w : Worker S) → Told w → Told (after_connect qt d now r w)
  unfolding after_connect shown
  after_connect-Told now (ok s) w h =
      let loaded : Worker S = load_prefs qt d s (announce_client qt d s w) in
      let started : Worker S = record loaded { refreshing = true } in
      on_refresh-Told d now started
        (like-Told loaded started (load_prefs-Told s _ (announce_client-Told s w h)) refl refl)
  after_connect-Told now (err e) w h =
      emitted-Told w (after_connect qt d now (err e) w)
        (log_message (text "connection failed: " ++ e.message)
          ∷ (status_changed error e.message ∷ []))
        h (append_assoc w.emitted _ _) refl
  after_connect-Told now out_of_fuel w h = h

  connect_daemon-Told :
      (now : ℕ) (host : Text) (port : ℕ) (password : Text) (w : Worker S)
      → Told w
      → Told (connect_daemon qt d now host port password w)
  unfolding connect_daemon shown
  connect_daemon-Told now host port password w h =
      let address = at_address qt d host port in
      let said = status_changed connecting address in
      let line = log_message (text "connecting to " ++ (address ++ text "…")) in
      let announced : Worker S = emit line (emit said (record w { sources = [] })) in
      after_connect-Told now (d.connect host port (normalize_password_md5 qt password)) announced
        (emitted-Told w announced (said ∷ (line ∷ [])) h (append_assoc w.emitted _ _) refl)

  announce_search-Told :
      (params : SearchParams) (w : Worker S) → Told w → Told (announce_search qt d params w)
  unfolding shown announce_search
  announce_search-Told params w h = emitted-Told w (announce_search qt d params w) _ h refl refl

  after_start-Told :
      (now : ℕ) (r : Outcome (Unit {0})) (w : Worker S) → Told w → Told (after_start qt d now r w)
  unfolding after_start fail_search shown
  after_start-Told now (ok u) w h = on_refresh-Told d now w h
  after_start-Told now (err e) w h =
      let over : Worker S = emit (searching_changed false) (record w { searching = false }) in
      report-Told _ e over (emitted-Told w over (searching_changed false ∷ []) h refl refl)
  after_start-Told now out_of_fuel w h = h

  start_with-Told :
      (now : ℕ) (params : SearchParams) (o : Option S) (w : Worker S)
      → Told w
      → Told (start_with qt d now params o w)
  unfolding start_with
  start_with-Told now params none w h = ignored-Told d _ w h
  start_with-Told now params (some s) w h =
      let (r, t) = Requests.start_search d.send params s in
      let announced : Worker S = announce_search qt d params w in
      after_start-Told now r (keep_client t announced)
        (like-Told announced (keep_client t announced) (announce_search-Told params w h) refl refl)

  after_fetch-Told : (r : Outcome DaemonPrefs) (w : Worker S) → Told w → Told (after_fetch qt d r w)
  unfolding after_fetch
  after_fetch-Told (ok prefs) w h = prefs-Told prefs w h
  after_fetch-Told (err e) w h = report-Told _ e w h
  after_fetch-Told out_of_fuel w h = h

  fetch_with-Told : (o : Option S) (w : Worker S) → Told w → Told (fetch_with qt d o w)
  unfolding fetch_with
  fetch_with-Told none w h = ignored-Told d _ w h
  fetch_with-Told (some s) w h =
      let (r, t) = ReadPrefs.fetch_prefs d.send s in
      after_fetch-Told r (keep_client t w) (like-Told w (keep_client t w) h refl refl)

  after_apply-Told :
      (r : Outcome (Unit {0})) (s : S) (w : Worker S) → Told w → Told (after_apply qt d r s w)
  unfolding after_apply
  after_apply-Told (ok u) s w h =
      load_prefs-Told s _ (ignored-Told d (text "preferences applied") w h)
  after_apply-Told (err e) s w h = report-Told _ e w h
  after_apply-Told out_of_fuel s w h = h

  apply_with-Told :
      (prefs : DaemonPrefs) (o : Option S) (w : Worker S)
      → Told w
      → Told (apply_with qt d prefs o w)
  unfolding apply_with
  apply_with-Told prefs none w h = ignored-Told d _ w h
  apply_with-Told prefs (some s) w h =
      let (r, t) = WritePrefs.set_prefs d.send prefs s in
      after_apply-Told r t (keep_client t w) (like-Told w (keep_client t w) h refl refl)

  disconnect-Told : (w : Worker S) → Told w → Told (disconnect_from_daemon w)
  unfolding disconnect_from_daemon
  disconnect-Told w h = ignored-Told d _ _ (teardown-Told _ _ w h)

  pub step-Told : (now : ℕ) (c : Command) (w : Worker S) → Told w → Told (step qt d now c w)
  unfolding step
  step-Told now (connect_to_daemon host port password) w h =
      connect_daemon-Told now host port password w h
  step-Told now disconnect w h = disconnect-Told w h
  step-Told now (start_search params) w h = start_with-Told now params w.client w h
  step-Told now stop_search w h = run_connected-Told d now _ _ (end_search-Told w h)
  step-Told now fetch_prefs w h = fetch_with-Told w.client w h
  step-Told now (apply_prefs prefs) w h = apply_with-Told prefs w.client w h
  step-Told now refresh w h = on_refresh-Told d now w h
  step-Told now _ w h = run_connected-Told d now _ w h

  run-Told : (cs : List (ℕ × Command)) (w : Worker S) → Told w → Told (run qt d cs w)
  unfolding run
  run-Told [] w h = h
  run-Told ((now, c) ∷ cs) w h = run-Told cs (step qt d now c w) (step-Told now c w h)

  -- After any history of slots but shutdown from the start, with any daemon, a reader of the
  -- signals knows whether a search is running: the last `searchingChanged` says what the worker
  -- keeps.
  pub run-new_worker-Told :
      (cs : List (ℕ × Command))
      → shown false (run qt d cs new_worker).emitted ≡ (run qt d cs new_worker).searching
  unfolding shown
  run-new_worker-Told cs = (run-Told cs new_worker (record { shows = refl })).shows
