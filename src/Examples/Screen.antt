-- ===== src/Examples/Screen.antt =====
-- The downloads on screen and the speed graph at concrete inputs.
use amule_remote_qt.Base.{some, inl, inr, arith, ◌≡◌, refl, true, List, [], ◌∷◌, replicate}
use amule_remote_qt.Model.Types.{Download, new_download}
use amule_remote_qt.App.Transfers.{
  no_transfers, is_finished, downloads_updated, retain, retain_dropped, retain_finished,
}
use amule_remote_qt.App.Transfers.Kept.{
  AreKept, Event, take_event, queue_arrives, user_deletes, take_events, take_events-retained,
}
use amule_remote_qt.App.Transfers.OnScreen.{is_kept, updates, finished_stays}
use amule_remote_qt.App.SpeedGraph.{SpeedGraph, load}
use amule_remote_qt.App.SpeedGraph.Window.{Sample, add_samples, latest, add_samples-latest}

abbrev done_download : Download
done_download = record new_download {
  ecid = 5;
  hash = replicate 16 7;
  size_full = 100;
  size_done = 100;
  speed = 3;
}

abbrev running : Download
running = record new_download { ecid = 4; hash = replicate 16 8; size_full = 100; size_done = 10 }

done_is_finished : is_finished done_download ≡ true
unfolding is_finished
done_is_finished = refl

take_events-retained_example :
    AreKept
      (take_events
        (queue_arrives (running ∷ (done_download ∷ []))
          ∷ (queue_arrives (running ∷ []) ∷ (user_deletes (replicate 16 8 ∷ []) ∷ [])))
        no_transfers).retained
take_events-retained_example = take_events-retained (
    queue_arrives (running ∷ (done_download ∷ []))
    ∷ (queue_arrives (running ∷ []) ∷ (user_deletes (replicate 16 8 ∷ []) ∷ [])))

-- The former queue has the download unfinished.
abbrev former_queue : Event
former_queue = queue_arrives (running ∷ (record done_download { size_done = 50 } ∷ []))

finished_stays_example :
    is_kept
      (replicate 16 7)
      (updates ((running ∷ []) ∷ ([] ∷ [])) (
        downloads_updated
          (running ∷ (done_download ∷ []))
          (take_events (former_queue ∷ []) no_transfers))).retained
    ≡ true
unfolding take_events take_event downloads_updated retain_finished retain_dropped retain is_finished
finished_stays_example =
    finished_stays (former_queue ∷ []) (running ∷ []) [] done_download ((running ∷ []) ∷ ([] ∷ []))
      done_is_finished tt (inl (omega arith), (inr refl, tt)) (inl (omega arith), tt)

abbrev samples : List Sample
samples = record { down = 10; up = 1 } ∷ (record { down = 20; up = 2 } ∷ [])

abbrev no_graph : SpeedGraph
no_graph = record { down = []; up = [] }

add_samples-latest_example :
    ((add_samples samples (load (some (5 ∷ [], 6 ∷ [])) no_graph)).down ≡ latest (5 ∷ 10 ∷ 20 ∷ []))
    × ((add_samples samples (load (some (5 ∷ [], 6 ∷ [])) no_graph)).up ≡ latest (6 ∷ 1 ∷ 2 ∷ []))
add_samples-latest_example = add_samples-latest samples (5 ∷ []) (6 ∷ []) no_graph
