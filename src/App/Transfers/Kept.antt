-- ===== src/App/Transfers/Kept.antt =====
-- What app/mainwindow.cpp retains of finished downloads.
use amule_remote_qt.Base.{
  ◌≡◌, refl, false, not, ◌&&◌, ◌||◌, List, [], ◌∷◌, ◌++◌, arith, Bool-cases, inl, inr, All, if_both,
}
use amule_remote_qt.Codes.Status
use amule_remote_qt.Ec.Tag.{Hash16}
use amule_remote_qt.Model.Types.{Download}
use amule_remote_qt.Worker.State.{ConnStatus, disconnected}
use amule_remote_qt.App.Tables.{bytes_equal}
use amule_remote_qt.App.Transfers.{
  Transfers, no_transfers, same_download, in_list, is_finished, as_completed, retain,
  retain_dropped, retain_finished, downloads_updated, drop_hash, drop_hashes, downloads_deleted,
  clear_retained, status_changed,
}

pub in_list-append :
    (xs ys : List Download) (d : Download) → in_list (xs ++ ys) d ≡ (in_list xs d || in_list ys d)
unfolding in_list
in_list-append [] ys d = refl
in_list-append (x ∷ xs) ys d = ground (arith, in_list-append xs ys d)

-- Each is shown as complete and still, and none stands for the same download as a later one.
abbrev pub AreKept : List Download → Type 0
AreKept [] = Unit {0}
AreKept (d ∷ ds) =
    (d.status ≡ Status.complete)
    × (d.speed ≡ 0)
    × All (λ e. same_download d e ≡ false) ds
    × AreKept ds

pub All-append_one :
    (P : Download → Type 0) (ds : List Download) (d : Download)
    → All P ds
    → P d
    → All P (ds ++ d ∷ [])
All-append_one P [] d h k = (k, tt)
All-append_one P (e ∷ es) d (h, hs) k = (h, All-append_one P es d hs k)

same_as_completed :
    (x d : Download) → same_download x d ≡ false → same_download x (as_completed d) ≡ false
unfolding as_completed same_download
same_as_completed x d h = h

append-AreKept :
    (kept : List Download) (d : Download)
    → in_list kept d ≡ false
    → AreKept kept
    → AreKept (kept ++ as_completed d ∷ [])
unfolding in_list
append-AreKept [] d h k = unfold as_completed in (refl, refl, tt, tt)
append-AreKept (x ∷ xs) d h (complete, still, apart, rest) = (
  complete,
  still,
  All-append_one _ xs (as_completed d) apart (same_as_completed x d (ground (arith))),
  append-AreKept xs d (ground arith) rest,
)

pub retain-AreKept : (d : Download) (kept : List Download) → AreKept kept → AreKept (retain d kept)
unfolding retain
retain-AreKept d kept k = elim (Bool-cases (is_finished d && not (in_list kept d))) [
  | inl e ↦ rw e (append-AreKept kept d (ground arith) k)
  | inr e ↦ rw e k
]

retain_finished-AreKept :
    (queue kept : List Download) → AreKept kept → AreKept (retain_finished queue kept)
unfolding retain_finished
retain_finished-AreKept [] kept k = k
retain_finished-AreKept (d ∷ ds) kept k =
    retain_finished-AreKept ds (retain d kept) (retain-AreKept d kept k)

pub retain_dropped-AreKept :
    (queue former kept : List Download) → AreKept kept → AreKept (retain_dropped queue former kept)
unfolding retain_dropped
retain_dropped-AreKept queue [] kept k = k
retain_dropped-AreKept queue (d ∷ ds) kept k =
    retain_dropped-AreKept queue ds _
      (if_both AreKept (in_list queue d) k (retain-AreKept d kept k))

All-drop_hash :
    (P : Download → Type 0) (h : Hash16) (ds : List Download) → All P ds → All P (drop_hash h ds)
unfolding drop_hash
All-drop_hash P h [] k = tt
All-drop_hash P h (d ∷ ds) (k, ks) =
    if_both (All P) (bytes_equal d.hash h) (All-drop_hash P h ds ks) (k, All-drop_hash P h ds ks)

drop_hash-AreKept : (h : Hash16) (ds : List Download) → AreKept ds → AreKept (drop_hash h ds)
unfolding drop_hash
drop_hash-AreKept h [] k = tt
drop_hash-AreKept h (d ∷ ds) (complete, still, apart, rest) =
    if_both AreKept (bytes_equal d.hash h) (drop_hash-AreKept h ds rest)
      (complete, still, All-drop_hash _ h ds apart, drop_hash-AreKept h ds rest)

drop_hashes-AreKept :
    (hs : List Hash16) (ds : List Download) → AreKept ds → AreKept (drop_hashes hs ds)
unfolding drop_hashes
drop_hashes-AreKept [] ds k = k
drop_hashes-AreKept (h ∷ hs) ds k = drop_hashes-AreKept hs _ (drop_hash-AreKept h ds k)

-- What the user and the worker do to the downloads on screen.
pub data Event : Type 0 where
  queue_arrives : List Download → Event
  user_clears : Event
  user_deletes : List Hash16 → Event
  status_arrives : ConnStatus → Event

unfoldable pub take_event : Event → Transfers → Transfers
take_event (queue_arrives queue) t = downloads_updated queue t
take_event user_clears t = clear_retained t
take_event (user_deletes hs) t = downloads_deleted hs t
take_event (status_arrives status) t = status_changed status t

unfoldable pub take_events : List Event → Transfers → Transfers
take_events [] t = t
take_events (e ∷ es) t = take_events es (take_event e t)

take_event-AreKept :
    (e : Event) (t : Transfers) → AreKept t.retained → AreKept (take_event e t).retained
unfolding take_event downloads_updated clear_retained downloads_deleted status_changed
take_event-AreKept (queue_arrives queue) t k =
    retain_finished-AreKept queue _ (retain_dropped-AreKept queue t.last_queue t.retained k)
take_event-AreKept user_clears t k = tt
take_event-AreKept (user_deletes hs) t k = drop_hashes-AreKept hs t.retained k
take_event-AreKept (status_arrives disconnected) t k = tt
take_event-AreKept (status_arrives _) t k = k

take_events-AreKept :
    (es : List Event) (t : Transfers) → AreKept t.retained → AreKept (take_events es t).retained
unfolding take_events
take_events-AreKept [] t k = k
take_events-AreKept (e ∷ es) t k = take_events-AreKept es _ (take_event-AreKept e t k)

-- After any events the downloads that are retained are complete and have no speed, and no download
-- is retained twice.
pub take_events-retained : (es : List Event) → AreKept (take_events es no_transfers).retained
take_events-retained es = take_events-AreKept es no_transfers tt
