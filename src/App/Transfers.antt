-- ===== src/App/Transfers.antt =====
-- app/mainwindow.cpp: the downloads on screen, with the finished ones that the daemon has dropped.
pub mod Kept
pub mod OnScreen
use amule_remote_qt.Base.{
  ℕ, Bool, true, false, not, ◌&&◌, ◌||◌, List, [], ◌∷◌, ◌++◌, ltb, leb, ◌==◌, if◌then◌else◌,
  replicate,
}
use amule_remote_qt.Codes.Status
use amule_remote_qt.Ec.Tag.{Hash16}
use amule_remote_qt.Model.Types.{Download}
use amule_remote_qt.Worker.State.{ConnStatus, disconnected, connecting, connected, error}
use amule_remote_qt.App.Tables.{bytes_equal}

-- The members `lastQueue_` and `retainedCompleted_` of MainWindow.
pub record Transfers : Type 0 where
  pub last_queue : List Download
  pub retained : List Download

abbrev pub no_transfers : Transfers
no_transfers = record { last_queue = []; retained = [] }

unfoldable pub same_download : Download → Download → Bool
same_download a b =
    (not (bytes_equal a.hash (replicate 16 0)) && bytes_equal a.hash b.hash)
    || (not (a.ecid == 0) && a.ecid == b.ecid)

unfoldable pub in_list : List Download → Download → Bool
in_list [] d = false
in_list (x ∷ xs) d = same_download x d || in_list xs d

unfoldable pub is_finished : Download → Bool
is_finished d =
    (d.status == Status.complete || d.status == Status.completing)
    || (ltb 0 d.size_full && leb d.size_full d.size_done)

unfoldable pub as_completed : Download → Download
as_completed d = record d {
  status = Status.complete;
  speed = 0;
  size_done = if ltb 0 d.size_full then d.size_full else d.size_done;
}

-- The body of both loops: a finished download is retained once.
unfoldable pub retain : Download → List Download → List Download
retain d kept = if is_finished d && not (in_list kept d) then kept ++ as_completed d ∷ [] else kept

-- The loop over the former queue passes over what is still in the queue.
unfoldable pub retain_dropped : List Download → List Download → List Download → List Download
retain_dropped queue [] kept = kept
retain_dropped queue (d ∷ ds) kept =
    retain_dropped queue ds (if in_list queue d then kept else retain d kept)

unfoldable pub retain_finished : List Download → List Download → List Download
retain_finished [] kept = kept
retain_finished (d ∷ ds) kept = retain_finished ds (retain d kept)

unfoldable pub downloads_updated : List Download → Transfers → Transfers
downloads_updated queue t = record {
  last_queue = queue;
  retained = retain_finished queue (retain_dropped queue t.last_queue t.retained);
}

-- What `refreshDownloadView` appends to the queue.
unfoldable pub missing_from : List Download → List Download → List Download
missing_from queue [] = []
missing_from queue (r ∷ rs) =
    if in_list queue r then missing_from queue rs else r ∷ missing_from queue rs

unfoldable pub display : Transfers → List Download
display t = t.last_queue ++ missing_from t.last_queue t.retained

-- The button "Clear completed".
unfoldable pub clear_retained : Transfers → Transfers
clear_retained t = record t { retained = [] }

-- `removeIf` with a deleted download's hash.
unfoldable pub drop_hash : Hash16 → List Download → List Download
drop_hash h [] = []
drop_hash h (d ∷ ds) = if bytes_equal d.hash h then drop_hash h ds else d ∷ drop_hash h ds

unfoldable pub drop_hashes : List Hash16 → List Download → List Download
drop_hashes [] kept = kept
drop_hashes (h ∷ hs) kept = drop_hashes hs (drop_hash h kept)

unfoldable pub downloads_deleted : List Hash16 → Transfers → Transfers
downloads_deleted hs t = record t { retained = drop_hashes hs t.retained }

-- The end of a session.
unfoldable pub status_changed : ConnStatus → Transfers → Transfers
status_changed disconnected t = record { last_queue = []; retained = [] }
status_changed _ t = t
