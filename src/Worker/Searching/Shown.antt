-- ===== src/Worker/Searching/Shown.antt =====
-- A refresh and a command of core/ec/worker.cpp keep what is shown of the search in step with what
-- holds.
use amule_remote_qt.Base.{
  ℕ, ◌≡◌, refl, false, Option, none, some, List, [], ◌∷◌, if_both, ap, ◌∙◌, sym,
}
use amule_remote_qt.Ec.Bytes.{Text}
use amule_remote_qt.Ec.Outcome.{Outcome, Call, ok, err, out_of_fuel}
use amule_remote_qt.Model.Types.{SearchResult}
use amule_remote_qt.Worker.State.{
  Worker, Daemon, emit, log_message, search_progress_changed, search_results_updated,
}
use amule_remote_qt.Worker.Commands.{
  after_search, refresh_search, search_state, show, Snapshot, snapshot, after_snapshot,
  refresh_with, on_refresh, after_command, run_with, run_connected, keep_client,
}
use amule_remote_qt.Worker.Searching.{
  shown, Told, emitted-Told, lose-Told, report-Told, track_progress-Told,
}

module _ {S : Type 0} where
  -- A worker that differs in neither the signals nor the search.
  pub like-Told :
      (w v : Worker S) → Told w → v.emitted ≡ w.emitted → v.searching ≡ w.searching → Told v
  like-Told w v h e b = record { shows = ap (shown false) e ∙ h.shows ∙ sym b }

  module _ (d : Daemon S) where
    after_search-Told :
        (now : ℕ) (r : Outcome (ℕ × List SearchResult)) (w : Worker S)
        → Told w
        → Told (after_search d now r w)
    unfolding after_search shown
    after_search-Told now (ok (progress, results)) w h =
        let told : Worker S = emit (search_progress_changed progress) w in
        let found : Worker S = emit (search_results_updated results) told in
        track_progress-Told now progress found (
          emitted-Told told found (search_results_updated results ∷ [])
            (emitted-Told w told (search_progress_changed progress ∷ []) h refl refl) refl refl)
    after_search-Told now (err e) w h = lose-Told e w h
    after_search-Told now out_of_fuel w h = h

    refresh_search-Told :
        (now : ℕ) (s : S) (w : Worker S) → Told w → Told (refresh_search d now s w)
    unfolding refresh_search
    refresh_search-Told now s w h =
        let kept : Worker S = keep_client (search_state d s).1 w in
        if_both Told w.searching
          (after_search-Told now (search_state d s).0 kept (like-Told w kept h refl refl)) h

    show-Told : (snap : Snapshot) (w : Worker S) → Told w → Told (show d snap w)
    unfolding show shown
    show-Told snap w h = emitted-Told w (show d snap w) _ h refl refl

    after_snapshot-Told :
        (now : ℕ) (r : Outcome Snapshot) (s : S) (w : Worker S)
        → Told w
        → Told (after_snapshot d now r s w)
    unfolding after_snapshot
    after_snapshot-Told now (ok snap) s w h =
        refresh_search-Told now s (show d snap w) (show-Told snap w h)
    after_snapshot-Told now (err e) s w h = lose-Told e w h
    after_snapshot-Told now out_of_fuel s w h = h

    refresh_with-Told :
        (now : ℕ) (o : Option S) (w : Worker S) → Told w → Told (refresh_with d now o w)
    unfolding refresh_with
    refresh_with-Told now none w h = h
    refresh_with-Told now (some s) w h =
        let kept : Worker S = keep_client (snapshot d w.sources s).1 w in
        after_snapshot-Told now (snapshot d w.sources s).0 (snapshot d w.sources s).1 kept
          (like-Told w kept h refl refl)

    pub on_refresh-Told : (now : ℕ) (w : Worker S) → Told w → Told (on_refresh d now w)
    unfolding on_refresh
    on_refresh-Told now w h = refresh_with-Told now w.client w h

    after_command-Told :
        (now : ℕ) (prefix : Text) (r : Outcome (Unit {0})) (w : Worker S)
        → Told w
        → Told (after_command d now prefix r w)
    unfolding after_command
    after_command-Told now prefix (ok u) w h = on_refresh-Told now w h
    after_command-Told now prefix (err e) w h = report-Told prefix e w h
    after_command-Told now prefix out_of_fuel w h = h

    pub ignored-Told : (line : Text) (w : Worker S) → Told w → Told (emit (log_message line) w)
    unfolding shown
    ignored-Told line w h =
        emitted-Told w (emit (log_message line) w) (log_message line ∷ []) h refl refl

    run_with-Told :
        (now : ℕ) (call : Call S (Unit {0})) (o : Option S) (w : Worker S)
        → Told w
        → Told (run_with d now call o w)
    unfolding run_with
    run_with-Told now call none w h = ignored-Told _ w h
    run_with-Told now call (some s) w h =
        after_command-Told now _ (call s).0 (keep_client (call s).1 w)
          (like-Told w (keep_client (call s).1 w) h refl refl)

    pub run_connected-Told :
        (now : ℕ) (call : Call S (Unit {0})) (w : Worker S)
        → Told w
        → Told (run_connected d now call w)
    unfolding run_connected
    run_connected-Told now call w h = run_with-Told now call w.client w h
