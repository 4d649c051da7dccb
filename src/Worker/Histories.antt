-- ===== src/Worker/Histories.antt =====
-- Every slot of core/ec/worker.cpp but shutdown keeps the worker's invariant, so it holds after any
-- history.
use amule_remote_qt.Base.{ℕ, ◌≡◌, refl, Bool, true, Option, none, some, List, [], ◌∷◌, subst, sym}
use amule_remote_qt.Ec.Bytes.{Text, Qt}
use amule_remote_qt.Ec.Outcome.{Outcome, ok, err, out_of_fuel}
use amule_remote_qt.Model.Types.{SearchParams}
use amule_remote_qt.Model.Prefs.{DaemonPrefs}
use amule_remote_qt.Queries.Sources.{Sources}
use amule_remote_qt.Queries.Sources.Consistent.{IsConsistent}
use amule_remote_qt.Queries.ReadPrefs
use amule_remote_qt.Queries.Requests
use amule_remote_qt.Queries.WritePrefs
use amule_remote_qt.Worker.State.{Worker, new_worker, Daemon}
use amule_remote_qt.Worker.Commands.{disconnect_from_daemon, keep_client, on_refresh}
use amule_remote_qt.Worker.Slots.{
  Command, connect_to_daemon, disconnect, start_search, stop_search, fetch_prefs, apply_prefs,
  refresh, show_prefs, load_prefs, announce_client, after_connect, connect_daemon, fail_search,
  after_start, announce_search, start_with, after_fetch, fetch_with, after_apply, apply_with, step,
  run,
}
use amule_remote_qt.Worker.Invariant.{
  Inv, Fits, Live, Inv-Live, teardown-Inv, report-Inv, end_search-Inv, on_refresh-Inv,
  run_connected-Inv,
}

module _ {S : Type 0} (qt : Qt) (d : Daemon S) where
  show_prefs-Inv : (r : Outcome DaemonPrefs) (w : Worker S) → Inv w → Inv (show_prefs qt d r w)
  unfolding show_prefs
  show_prefs-Inv (ok prefs) w h = h
  show_prefs-Inv (err e) w h = h
  show_prefs-Inv out_of_fuel w h = h

  -- A worker that has just connected.
  refreshed-Inv :
      (now : ℕ) (r : Outcome DaemonPrefs) (s : S) (w : Worker S)
      → w.sources ≡ []
      → Inv (on_refresh d now (record (show_prefs qt d r (keep_client s w)) { refreshing = true }))
  unfolding show_prefs
  refreshed-Inv now (ok prefs) s w e = on_refresh-Inv d now _ (refl, subst IsConsistent (sym e) tt)
  refreshed-Inv now (err x) s w e = on_refresh-Inv d now _ (refl, subst IsConsistent (sym e) tt)
  refreshed-Inv now out_of_fuel s w e = on_refresh-Inv d now _ (refl, subst IsConsistent (sym e) tt)

  after_connect-Inv :
      (now : ℕ) (r : Outcome S) (w : Worker S)
      → w.sources ≡ []
      → Inv w
      → Inv (after_connect qt d now r w)
  unfolding after_connect load_prefs
  after_connect-Inv now (ok s) w none_yet h =
      refreshed-Inv now (ReadPrefs.fetch_prefs d.send s).0 (ReadPrefs.fetch_prefs d.send s).1
        (announce_client qt d s w) none_yet
  after_connect-Inv now (err e) w none_yet h = h
  after_connect-Inv now out_of_fuel w none_yet h = h

  Fits-cleared :
      (o : Option S) (m : Sources) (refreshing searching : Bool)
      → Fits o m refreshing searching
      → Fits o [] refreshing searching
  Fits-cleared none m r b (hr, hm, hb) = (hr, refl, hb)
  Fits-cleared (some s) m r b (hr, hm) = (hr, tt)

  connect_daemon-Inv :
      (now : ℕ) (host : Text) (port : ℕ) (password : Text) (w : Worker S)
      → Inv w
      → Inv (connect_daemon qt d now host port password w)
  unfolding connect_daemon
  connect_daemon-Inv now host port password w h =
      after_connect-Inv now _ _ refl (Fits-cleared w.client w.sources w.refreshing w.searching h)

  after_start-Inv :
      (now : ℕ) (r : Outcome (Unit {0})) (s : S) (w : Worker S)
      → Live w
      → Inv (after_start qt d now r (keep_client s w))
  unfolding after_start fail_search
  after_start-Inv now (ok u) s w h = on_refresh-Inv d now _ h
  after_start-Inv now (err e) s w h = report-Inv _ e _ h
  after_start-Inv now out_of_fuel s w h = h

  start_with-Inv :
      (now : ℕ) (params : SearchParams) (o : Option S) (w : Worker S)
      → w.client ≡ o
      → Inv w
      → Inv (start_with qt d now params o w)
  unfolding start_with announce_search
  start_with-Inv now params none w e h = h
  start_with-Inv now params (some s) w e h =
      after_start-Inv now (Requests.start_search d.send params s).0
        (Requests.start_search d.send params s).1 (announce_search qt d params w) (Inv-Live s w e h)

  after_fetch-Inv : (r : Outcome DaemonPrefs) (w : Worker S) → Inv w → Inv (after_fetch qt d r w)
  unfolding after_fetch
  after_fetch-Inv (ok prefs) w h = h
  after_fetch-Inv (err e) w h = report-Inv _ e w h
  after_fetch-Inv out_of_fuel w h = h

  fetch_with-Inv : (o : Option S) (w : Worker S) → w.client ≡ o → Inv w → Inv (fetch_with qt d o w)
  unfolding fetch_with
  fetch_with-Inv none w e h = h
  fetch_with-Inv (some s) w e h =
      after_fetch-Inv (ReadPrefs.fetch_prefs d.send s).0 _ (Inv-Live s w e h)

  after_apply-Inv :
      (r : Outcome (Unit {0})) (t s : S) (w : Worker S)
      → Live w
      → Inv (after_apply qt d r t (keep_client s w))
  unfolding after_apply load_prefs
  after_apply-Inv (ok u) t s w h = show_prefs-Inv (ReadPrefs.fetch_prefs d.send t).0 _ h
  after_apply-Inv (err e) t s w h = report-Inv _ e _ h
  after_apply-Inv out_of_fuel t s w h = h

  apply_with-Inv :
      (prefs : DaemonPrefs) (o : Option S) (w : Worker S)
      → w.client ≡ o
      → Inv w
      → Inv (apply_with qt d prefs o w)
  unfolding apply_with
  apply_with-Inv prefs none w e h = h
  apply_with-Inv prefs (some s) w e h =
      after_apply-Inv (WritePrefs.set_prefs d.send prefs s).0 _ _ w (Inv-Live s w e h)

  step-Inv : (now : ℕ) (c : Command) (w : Worker S) → Inv w → Inv (step qt d now c w)
  unfolding step disconnect_from_daemon
  step-Inv now (connect_to_daemon host port password) w h =
      connect_daemon-Inv now host port password w h
  step-Inv now disconnect w h = teardown-Inv _ _ w
  step-Inv now (start_search params) w h = start_with-Inv now params w.client w refl h
  step-Inv now stop_search w h = run_connected-Inv d now _ _ (end_search-Inv w h)
  step-Inv now fetch_prefs w h = fetch_with-Inv w.client w refl h
  step-Inv now (apply_prefs prefs) w h = apply_with-Inv prefs w.client w refl h
  step-Inv now refresh w h = on_refresh-Inv d now w h
  step-Inv now _ w h = run_connected-Inv d now _ w h

  run-Inv : (cs : List (ℕ × Command)) (w : Worker S) → Inv w → Inv (run qt d cs w)
  unfolding run
  run-Inv [] w h = h
  run-Inv ((now, c) ∷ cs) w h = run-Inv cs (step qt d now c w) (step-Inv now c w h)

  -- After any history of slots but shutdown from the start, with any daemon: without a client the
  -- timer is stopped and there are no sources and no search; with one the timer runs, and every
  -- source is filed under its own id, no id twice.
  pub run-new_worker-Inv : (cs : List (ℕ × Command)) → Inv (run qt d cs new_worker)
  run-new_worker-Inv cs = run-Inv cs new_worker (refl, refl, refl)
