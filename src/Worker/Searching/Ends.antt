-- ===== src/Worker/Searching/Ends.antt =====
-- A search of core/ec/worker.cpp ends: refreshes that read its progress at 100 close it when the
-- grace period is over.
use amule_remote_qt.Base.{
  ℕ, ◌+◌, ◌-◌, ◌≤◌, ◌≡◌, refl, sym, subst, ◌⊎◌, inl, inr, Bool, true, false, some, List, [], ◌∷◌,
  ◌++◌, leb, if◌then◌else◌, if_both, Bool-cases, arith,
}
use amule_remote_qt.Ec.Outcome.{ok}
use amule_remote_qt.Model.Types.{SearchResult}
use amule_remote_qt.Queries.Sources.{Sources}
use amule_remote_qt.Worker.State.{
  Worker, Daemon, emit, search_progress_changed, search_results_updated,
}
use amule_remote_qt.Worker.Commands.{
  search_grace_ms, track_progress, Snapshot, snapshot, show, search_state, after_search,
  refresh_search, after_snapshot, refresh_with, on_refresh, keep_client,
}

-- A daemon that answers, with the progress of the search at 100 or above.
pub record IsDone {S : Type 0} (d : Daemon S) : Type 0 where
  pub answers : (m : Sources) (s : S) → (snap : Snapshot) × ((snapshot d m s).0 ≡ ok snap)
  pub done :
      (s : S)
      → (progress : ℕ) × (rs : List SearchResult) × ((search_state d s).0 ≡ ok (progress, rs))
        × (leb 100 progress ≡ true)

module _ {S : Type 0} where
  -- The search is over, or its progress has read 100 since `t` or before.
  pub record Closing (t : ℕ) (w : Worker S) : Type 0 where
    pub client : (s : S) × (w.client ≡ some s)
    pub state : (w.searching ≡ false) ⊎ ((w.at100 ≡ true) × (w.at100_since ≤ t))

  -- At `now` the search is over.
  pub record Over (w : Worker S) : Type 0 where
    pub client : (s : S) × (w.client ≡ some s)
    pub over : w.searching ≡ false

  -- The first refresh that reads 100.
  track_progress-Closing :
      (now progress : ℕ) (w : Worker S) (s : S)
      → leb 100 progress ≡ true
      → w.client ≡ some s
      → w.at100_since ≤ now
      → Closing now (track_progress now progress w)
  unfolding track_progress
  track_progress-Closing now progress w s full c since = rw full (elim (Bool-cases w.at100) [
    | inl b ↦ rw b (
        if_both (Closing now) (leb search_grace_ms (now - w.at100_since))
          (record { client = (s, c); state = inl refl })
          (record { client = (s, c); state = inr (refl, since) }))
    | inr b ↦ rw b (record { client = (s, c); state = inr (refl, omega arith) })
  ])

  -- The refreshes that follow.
  track_progress-Closing_still :
      (t now progress : ℕ) (w : Worker S) (s : S)
      → leb 100 progress ≡ true
      → w.client ≡ some s
      → w.at100 ≡ true
      → w.at100_since ≤ t
      → Closing t (track_progress now progress w)
  unfolding track_progress
  track_progress-Closing_still t now progress w s full c b since =
      rw (full, b)
        (if_both (Closing t) (leb search_grace_ms (now - w.at100_since))
          (record { client = (s, c); state = inl refl })
          (record { client = (s, c); state = inr (refl, since) }))

  -- The refresh that comes when the grace period is over.
  track_progress-Over :
      (t now progress : ℕ) (w : Worker S) (s : S)
      → leb 100 progress ≡ true
      → w.client ≡ some s
      → w.at100 ≡ true
      → w.at100_since ≤ t
      → t + search_grace_ms ≤ now
      → Over (track_progress now progress w)
  unfolding track_progress
  track_progress-Over t now progress w s full c b since late =
      let waited : leb search_grace_ms (now - w.at100_since) ≡ true = ground arith in
      rw (full, b, waited) (record { client = (s, c); over = refl })

not_both : {b : Bool} → b ≡ true → b ≡ false → ⊥
not_both on off = absurd (ground arith)

-- What holds of either branch where its test says so holds of the conditional.
if_case :
    {X : Type 0} (P : X → Type 0) (test : Bool) {x y : X}
    → (test ≡ true → P x)
    → (test ≡ false → P y)
    → P (if test then x else y)
if_case P true on_yes on_no = on_yes refl
if_case P false on_yes on_no = on_no refl

module _ {S : Type 0} (d : Daemon S) where
  -- The timer's refreshes at these times.
  unfoldable pub refreshes : List ℕ → Worker S → Worker S
  refreshes [] w = w
  refreshes (now ∷ times) w = refreshes times (on_refresh d now w)

module _ {S : Type 0} (d : Daemon S) (h : IsDone d) where
  -- A refresh with such a daemon, once the snapshot is shown.
  on_refresh_done :
      (P : Worker S → Type 0) (now : ℕ) (w : Worker S) (s : S)
      → w.client ≡ some s
      → ((snap : Snapshot) (u : S) → P (refresh_search d now u (show d snap (keep_client u w))))
      → P (on_refresh d now w)
  unfolding on_refresh refresh_with after_snapshot
  on_refresh_done P now w s c k =
      let (snap, e) = h.answers w.sources s in rw (c, e) (k snap (snapshot d w.sources s).1)

  -- What the search does in a refresh: nothing where it is over, and else it reads its progress.
  refresh_search_done :
      (P : Worker S → Type 0) (now : ℕ) (u : S) (w : Worker S)
      → (w.searching ≡ false → P w)
      → ((progress : ℕ) (rs : List SearchResult) (v : S)
          → w.searching ≡ true
          → leb 100 progress ≡ true
          → P (
              track_progress now progress (
                emit
                  (search_results_updated rs)
                  (emit (search_progress_changed progress) (keep_client v w)))))
      → P (refresh_search d now u w)
  unfolding refresh_search after_search
  refresh_search_done P now u w idle reads =
      let (progress, rs, e, full) = h.done u in
      let v = (search_state d u).1 in
      if_case P w.searching
        (λ b.
          subst (λ r. P (after_search d now r (keep_client v w))) (sym e)
            (reads progress rs v b full))
        idle

  -- The clock does not go back: the progress timer was not started after `t`.
  refresh-Closing :
      (t : ℕ) (w : Worker S) (s : S)
      → w.client ≡ some s
      → w.at100_since ≤ t
      → Closing t (on_refresh d t w)
  unfolding show
  refresh-Closing t w s c since = on_refresh_done (Closing t) t w s c (λ snap u.
      refresh_search_done (Closing t) t u _ (λ b. record { client = (u, refl); state = inl b })
        (λ progress rs v b full. track_progress-Closing t progress _ v full refl since))

  refresh-Closing_still : (t now : ℕ) (w : Worker S) → Closing t w → Closing t (on_refresh d now w)
  unfolding show
  refresh-Closing_still t now w k =
      let (s, c) = k.client in
      on_refresh_done (Closing t) now w s c (λ snap u.
        refresh_search_done (Closing t) now u _ (λ b. record { client = (u, refl); state = inl b })
          (λ progress rs v on full. elim k.state [
            | inl over ↦ absurd (not_both on over)
            | inr (b, since) ↦ track_progress-Closing_still t now progress _ v full refl b since
          ]))

  refresh-Over :
      (t now : ℕ) (w : Worker S)
      → Closing t w
      → t + search_grace_ms ≤ now
      → Over (on_refresh d now w)
  unfolding show
  refresh-Over t now w k late =
      let (s, c) = k.client in
      on_refresh_done Over now w s c (λ snap u.
        refresh_search_done Over now u _ (λ b. record { client = (u, refl); over = b })
          (λ progress rs v on full. elim k.state [
            | inl over ↦ absurd (not_both on over)
            | inr (b, since) ↦ track_progress-Over t now progress _ v full refl b since late
          ]))

  refreshes-Over :
      (t now : ℕ) (times : List ℕ) (w : Worker S)
      → Closing t w
      → t + search_grace_ms ≤ now
      → Over (refreshes d (times ++ now ∷ []) w)
  unfolding refreshes
  refreshes-Over t now [] w k late = refresh-Over t now w k late
  refreshes-Over t now (time ∷ times) w k late =
      refreshes-Over t now times _ (refresh-Closing_still t time w k) late

  -- A search ends: from any worker with a client whose progress timer was not started in the
  -- future, where the daemon answers every refresh and reports a progress of 100 or more, it is
  -- over after a refresh that comes 12 seconds or more after the first, whatever refreshes came
  -- between.
  pub searching-refreshes :
      (first last : ℕ) (between : List ℕ) (w : Worker S) (s : S)
      → w.client ≡ some s
      → w.at100_since ≤ first
      → first + search_grace_ms ≤ last
      → (refreshes d (first ∷ (between ++ last ∷ [])) w).searching ≡ false
  unfolding refreshes
  searching-refreshes first last between w s c since late =
      (refreshes-Over first last between _ (refresh-Closing first w s c since) late).over
