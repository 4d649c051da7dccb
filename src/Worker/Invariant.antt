-- ===== src/Worker/Invariant.antt =====
-- The worker's invariant: what is kept when there is no connection, and when the timer runs.
use amule_remote_qt.Base.{
  ℕ, ◌-◌, leb, ◌≡◌, refl, subst, arith, Bool, true, false, Option, none, some, List, [], if_both,
}
use amule_remote_qt.Ec.Bytes.{Text}
use amule_remote_qt.Ec.Outcome.{Outcome, Call, bind, EcError, ok, err, out_of_fuel}
use amule_remote_qt.Queries.Sources.{Sources, fetch_client_update}
use amule_remote_qt.Queries.Sources.Consistent.{IsConsistent, update_sources-IsConsistent}
use amule_remote_qt.Model.Types.{SearchResult}
use amule_remote_qt.Queries.Fetches.{
  fetch_stats, fetch_downloads, fetch_conn_state, fetch_servers, fetch_shared_files,
}
use amule_remote_qt.Worker.State.{ConnStatus, Worker, Daemon}
use amule_remote_qt.Worker.Commands.{
  end_search, teardown, lose, report, track_progress, Snapshot, snapshot, show, search_state,
  after_search, refresh_search, after_snapshot, refresh_with, on_refresh, after_command, run_with,
  run_connected, search_grace_ms, keep_client, is_io,
}

-- Without a client the timer is stopped, and there are no sources and no search; with one the timer
-- runs, and the sources are filed under their ids.
abbrev pub Fits : {S : Type 0} → Option S → Sources → Bool → Bool → Type 0
Fits none sources refreshing searching = (refreshing ≡ false) × (sources ≡ []) × (searching ≡ false)
Fits (some s) sources refreshing searching = (refreshing ≡ true) × IsConsistent sources

abbrev pub Inv : {S : Type 0} → Worker S → Type 0
Inv w = Fits w.client w.sources w.refreshing w.searching

-- What `Inv` says of a worker with a client.
abbrev pub Live : {S : Type 0} → Worker S → Type 0
Live w = (w.refreshing ≡ true) × IsConsistent w.sources

-- `P` holds of what a call returns, if it does.
abbrev Yields : {A : Type 0} → (A → Type 0) → Outcome A → Type 0
Yields P (ok a) = P a
Yields P (err e) = Unit
Yields P out_of_fuel = Unit

Yields-any : {A : Type 0} (r : Outcome A) → Yields (λ a. Unit {0}) r
Yields-any (ok a) = tt
Yields-any (err e) = tt
Yields-any out_of_fuel = tt

module _ {S : Type 0} where
  Yields-bind :
      {A B : Type 0} (P : A → Type 0) (Q : B → Type 0) (r : Outcome A × S) (f : A → Call S B)
      → Yields P r.0
      → ((a : A) (s : S) → P a → Yields Q (f a s).0)
      → Yields Q (bind r f).0
  Yields-bind P Q (ok a, s) f h k = k a s h
  Yields-bind P Q (err e, s) f h k = tt
  Yields-bind P Q (out_of_fuel, s) f h k = tt

  pub Inv-Live : (s : S) (w : Worker S) → w.client ≡ some s → Inv w → Live w
  Inv-Live s w e h = subst (λ o. Fits o w.sources w.refreshing w.searching) e h

  pub teardown-Inv :
      (reason : Text) (status : ConnStatus) (w : Worker S) → Inv (teardown reason status w)
  unfolding teardown end_search
  teardown-Inv reason status w = ground arith

  lose-Inv : (e : EcError) (w : Worker S) → Inv (lose e w)
  unfolding lose
  lose-Inv e w = teardown-Inv e.message _ _

  pub report-Inv : (prefix : Text) (e : EcError) (w : Worker S) → Inv w → Inv (report prefix e w)
  unfolding report
  report-Inv prefix e w h = if_both Inv (is_io e.kind) (teardown-Inv e.message _ _) h

  Fits-idle :
      (o : Option S) (m : Sources) (refreshing searching : Bool)
      → Fits o m refreshing searching
      → Fits o m refreshing false
  Fits-idle none m r b (hr, hm, hb) = (hr, hm, refl)
  Fits-idle (some s) m r b h = h

  pub end_search-Inv : (w : Worker S) → Inv w → Inv (end_search w)
  unfolding end_search
  end_search-Inv w h =
      if_both Inv w.searching (Fits-idle w.client w.sources w.refreshing w.searching h) h

  track_progress-Inv :
      (now progress : ℕ) (w : Worker S) → Inv w → Inv (track_progress now progress w)
  unfolding track_progress
  track_progress-Inv now progress w h =
      if_both Inv (leb 100 progress)
        (if_both Inv w.at100
          (if_both Inv (leb search_grace_ms (now - w.at100_since))
            (Fits-idle w.client w.sources w.refreshing w.searching h) h)
          h)
        h

  module _ (d : Daemon S) where
    snapshot-IsConsistent :
        (m : Sources) (s : S)
        → IsConsistent m
        → Yields (λ snap. IsConsistent snap.sources) (snapshot d m s).0
    unfolding snapshot fetch_client_update
    snapshot-IsConsistent m s h =
        Yields-bind (λ a. Unit {0}) _ (fetch_stats d.send s) _ (Yields-any _)
          λ stats s₁ _.
            Yields-bind (λ a. Unit {0}) _ (fetch_downloads d.send s₁) _ (Yields-any _)
              λ downloads s₂ _.
                Yields-bind (λ a. Unit {0}) _ (fetch_conn_state d.send s₂) _ (Yields-any _)
                  λ conn s₃ _.
                    Yields-bind (λ a. Unit {0}) _ (fetch_servers d.send s₃) _ (Yields-any _)
                      λ servers s₄ _.
                        Yields-bind (λ a. Unit {0}) _ (fetch_shared_files d.send s₄) _
                          (Yields-any _)
                          λ shared s₅ _.
                            Yields-bind IsConsistent _ (fetch_client_update d.to_double d.send m s₅)
                              _
                              (Yields-bind (λ a. Unit {0}) IsConsistent (d.send _ s₅) _
                                (Yields-any _)
                                λ reply s₆ _. update_sources-IsConsistent d.to_double _ m h)
                              λ sources s₇ hs. hs

    after_search-Inv :
        (now : ℕ) (r : Outcome (ℕ × List SearchResult)) (w : Worker S)
        → Inv w
        → Inv (after_search d now r w)
    unfolding after_search
    after_search-Inv now (ok (progress, results)) w h = track_progress-Inv now progress _ h
    after_search-Inv now (err e) w h = lose-Inv e w
    after_search-Inv now out_of_fuel w h = h

    refresh_search-Inv :
        (now : ℕ) (s : S) (w : Worker S) → Live w → Inv w → Inv (refresh_search d now s w)
    unfolding refresh_search
    refresh_search-Inv now s w live h =
        if_both Inv w.searching (after_search-Inv now (search_state d s).0 _ live) h

    after_snapshot-Inv :
        (now : ℕ) (r : Outcome Snapshot) (s t : S) (w : Worker S)
        → Yields (λ snap. IsConsistent snap.sources) r
        → Live w
        → Inv (after_snapshot d now r t (keep_client s w))
    unfolding after_snapshot show
    after_snapshot-Inv now (ok snap) s t w hs live =
        refresh_search-Inv now t _ (live.0, hs) (live.0, hs)
    after_snapshot-Inv now (err e) s t w hs live = lose-Inv e _
    after_snapshot-Inv now out_of_fuel s t w hs live = live

    refresh_with-Inv :
        (now : ℕ) (o : Option S) (w : Worker S)
        → w.client ≡ o
        → Inv w
        → Inv (refresh_with d now o w)
    unfolding refresh_with
    refresh_with-Inv now none w e h = h
    refresh_with-Inv now (some s) w e h =
        let live = Inv-Live s w e h in
        after_snapshot-Inv now (snapshot d w.sources s).0 (snapshot d w.sources s).1
          (snapshot d w.sources s).1 w (snapshot-IsConsistent w.sources s live.1) live

    pub on_refresh-Inv : (now : ℕ) (w : Worker S) → Inv w → Inv (on_refresh d now w)
    unfolding on_refresh
    on_refresh-Inv now w h = refresh_with-Inv now w.client w refl h

    after_command-Inv :
        (now : ℕ) (prefix : Text) (r : Outcome (Unit {0})) (w : Worker S)
        → Inv w
        → Inv (after_command d now prefix r w)
    unfolding after_command
    after_command-Inv now prefix (ok u) w h = on_refresh-Inv now w h
    after_command-Inv now prefix (err e) w h = report-Inv prefix e w h
    after_command-Inv now prefix out_of_fuel w h = h

    run_with-Inv :
        (now : ℕ) (call : Call S (Unit {0})) (o : Option S) (w : Worker S)
        → w.client ≡ o
        → Inv w
        → Inv (run_with d now call o w)
    unfolding run_with
    run_with-Inv now call none w e h = h
    run_with-Inv now call (some s) w e h = after_command-Inv now _ (call s).0 _ (Inv-Live s w e h)

    pub run_connected-Inv :
        (now : ℕ) (call : Call S (Unit {0})) (w : Worker S)
        → Inv w
        → Inv (run_connected d now call w)
    unfolding run_connected
    run_connected-Inv now call w h = run_with-Inv now call w.client w refl h
