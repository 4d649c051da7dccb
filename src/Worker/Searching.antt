-- ===== src/Worker/Searching.antt =====
-- The search state that core/ec/worker.cpp shows against the one that it keeps.
pub mod Shown
pub mod Histories
pub mod Ends
use amule_remote_qt.Base.{
  ℕ, ◌≡◌, refl, ◌∙◌, sym, ap, Bool, true, false, Option, none, some, List, [], ◌∷◌, ◌++◌,
  if◌then◌else◌, if_both, leb, ◌-◌, Bool-cases, inl, inr,
}
use amule_remote_qt.Ec.Bytes.{Bytes, Text, Qt, text}
use amule_remote_qt.Ec.Outcome.{Outcome, Call, EcError, ok, err, out_of_fuel}
use amule_remote_qt.Model.Types.{SearchResult, SearchParams}
use amule_remote_qt.Model.Prefs.{DaemonPrefs}
use amule_remote_qt.Queries.ReadPrefs
use amule_remote_qt.Queries.Requests
use amule_remote_qt.Queries.WritePrefs
use amule_remote_qt.Worker.State.{
  Worker, Daemon, Signal, ConnStatus, new_worker, emit, searching_changed, log_message,
  status_changed, error,
}
use amule_remote_qt.Worker.Commands.{
  is_io, teardown, end_search, report, lose, track_progress, search_grace_ms, after_search,
  refresh_search, search_state, show, Snapshot, snapshot, after_snapshot, refresh_with, on_refresh,
  after_command, run_with, run_connected, keep_client, disconnect_from_daemon,
}
use amule_remote_qt.Worker.Slots.{
  show_prefs, load_prefs, announce_client, after_connect, connect_daemon, fail_search, after_start,
  announce_search, start_with, after_fetch, fetch_with, after_apply, apply_with, Command, step, run,
  connect_to_daemon, disconnect, start_search, stop_search, fetch_prefs, apply_prefs, refresh,
}

-- The search state that a reader of the signals has, who began with `b`.
unfoldable pub shown : Bool → List Signal → Bool
shown b [] = b
shown b (searching_changed c ∷ ss) = shown c ss
shown b (_ ∷ ss) = shown b ss

pub shown-append : (b : Bool) (ss ts : List Signal) → shown b (ss ++ ts) ≡ shown (shown b ss) ts
unfolding shown
shown-append b [] ts = refl
shown-append b (searching_changed c ∷ ss) ts = shown-append c ss ts
shown-append b (_ ∷ ss) ts = shown-append b ss ts

-- What was shown last is what holds.
pub record Told {S : Type 0} (w : Worker S) : Type 0 where
  pub shows : shown false w.emitted ≡ w.searching

module _ {S : Type 0} where
  pub emitted-Told :
      (w v : Worker S) (ss : List Signal)
      → Told w
      → v.emitted ≡ w.emitted ++ ss
      → shown w.searching ss ≡ v.searching
      → Told v
  emitted-Told w v ss h e after = record {
    shows =
        ap (shown false) e ∙ shown-append false w.emitted ss ∙ ap (λ b. shown b ss) h.shows ∙ after;
  }

  pub end_search-Told : (w : Worker S) → Told w → Told (end_search w)
  unfolding end_search shown
  end_search-Told w h =
      if_both Told w.searching
        (emitted-Told w (emit (searching_changed false) (record w { searching = false }))
          (searching_changed false ∷ []) h refl refl)
        h

  pub teardown-Told :
      (reason : Text) (status : ConnStatus) (w : Worker S)
      → Told w
      → Told (teardown reason status w)
  unfolding teardown shown
  teardown-Told reason status w h =
      let idle : Worker S = record w { refreshing = false; client = none; sources = [] } in
      emitted-Told (end_search idle) (emit (status_changed status reason) (end_search idle))
        (status_changed status reason ∷ []) (end_search-Told idle (record { shows = h.shows })) refl
        refl

  pub lose-Told : (e : EcError) (w : Worker S) → Told w → Told (lose e w)
  unfolding lose shown
  lose-Told e w h =
      let line = log_message (text "connection lost: " ++ e.message) in
      teardown-Told e.message error (emit line w)
        (emitted-Told w (emit line w) (line ∷ []) h refl refl)

  pub report-Told : (prefix : Text) (e : EcError) (w : Worker S) → Told w → Told (report prefix e w)
  unfolding report shown
  report-Told prefix e w h =
      let line = log_message (prefix ++ e.message) in
      let logged = emitted-Told w (emit line w) (line ∷ []) h refl refl in
      if_both Told (is_io e.kind) (teardown-Told e.message error (emit line w) logged) logged

  pub track_progress-Told :
      (now progress : ℕ) (w : Worker S) → Told w → Told (track_progress now progress w)
  unfolding track_progress shown
  track_progress-Told now progress w h =
      let over : Worker S =
        emit (searching_changed false) (record w { searching = false; at100 = false }) in
      let full : Worker S = record w { at100 = true; at100_since = now } in
      let short : Worker S = record w { at100 = false } in
      let full-Told : Told full = record { shows = h.shows } in
      let short-Told : Told short = record { shows = h.shows } in
      if_both Told (leb 100 progress)
        (if_both Told w.at100
          (if_both Told (leb search_grace_ms (now - w.at100_since))
            (emitted-Told w over (searching_changed false ∷ []) h refl refl) h)
          full-Told)
        short-Told
