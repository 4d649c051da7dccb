-- ===== src/App/Transfers/OnScreen.antt =====
-- What stays on screen of finished downloads, in app/mainwindow.cpp.
use amule_remote_qt.Base.{
  ◌==◌, ◌≢◌, ◌||◌, ◌⊎◌, Bool, All, ◌≡◌, refl, true, false, not, ◌&&◌, List, [], ◌∷◌, ◌++◌, arith,
  Bool-cases, inl, inr, if_both,
}
use amule_remote_qt.Codes.Status
use amule_remote_qt.Ec.Tag.{Hash16}
use amule_remote_qt.App.Tables.{bytes_equal}
use amule_remote_qt.App.Tables.Layout.{bytes_equal_iff}
use amule_remote_qt.Model.Types.{Download}
use amule_remote_qt.App.Transfers.{
  Transfers, no_transfers, same_download, in_list, is_finished, as_completed, retain,
  retain_dropped, retain_finished, downloads_updated, missing_from, display,
}
use amule_remote_qt.App.Transfers.Kept.{
  in_list-append, AreKept, All-append_one, retain-AreKept, retain_dropped-AreKept, Event,
  take_events, take_events-retained,
}

-- A download with a hash or an EC id: it stands for itself.
abbrev pub IsIdentified : Download → Type 0
IsIdentified d = same_download d d ≡ true

-- A download of the hash is there, complete and with no speed.
abbrev pub is_kept : Hash16 → List Download → Bool
is_kept h [] = false
is_kept h (r ∷ rs) =
    (bytes_equal r.hash h && (r.status == Status.complete && r.speed == 0)) || is_kept h rs

-- A download that shares the EC id of `d` is of the same file.
abbrev pub IsApart : Download → Download → Type 0
IsApart d e = (e.ecid ≢ d.ecid) ⊎ (e.hash ≡ d.hash)

is_kept-append :
    (h : Hash16) (xs ys : List Download) → is_kept h (xs ++ ys) ≡ (is_kept h xs || is_kept h ys)
is_kept-append h [] ys = refl
is_kept-append h (x ∷ xs) ys = ground (arith, is_kept-append h xs ys)

is_kept-retain :
    (h : Hash16) (d : Download) (kept : List Download)
    → is_kept h kept ≡ true
    → is_kept h (retain d kept) ≡ true
unfolding retain
is_kept-retain h d kept k =
    if_both (λ ds. is_kept h ds ≡ true) (is_finished d && not (in_list kept d))
      (ground (arith, is_kept-append h kept (as_completed d ∷ []))) k

is_kept-retain_dropped :
    (h : Hash16) (queue former kept : List Download)
    → is_kept h kept ≡ true
    → is_kept h (retain_dropped queue former kept) ≡ true
unfolding retain_dropped
is_kept-retain_dropped h queue [] kept k = k
is_kept-retain_dropped h queue (d ∷ ds) kept k =
    is_kept-retain_dropped h queue ds _
      (if_both (λ es. is_kept h es ≡ true) (in_list queue d) k (is_kept-retain h d kept k))

is_kept-retain_finished :
    (h : Hash16) (queue kept : List Download)
    → is_kept h kept ≡ true
    → is_kept h (retain_finished queue kept) ≡ true
unfolding retain_finished
is_kept-retain_finished h [] kept k = k
is_kept-retain_finished h (d ∷ ds) kept k =
    is_kept-retain_finished h ds (retain d kept) (is_kept-retain h d kept k)

-- What is retained of downloads that are apart from another is apart from it.
retain-IsApart :
    (d e : Download) (kept : List Download)
    → All (IsApart d) kept
    → IsApart d e
    → All (IsApart d) (retain e kept)
unfolding retain as_completed
retain-IsApart d e kept h k =
    if_both (All (IsApart d)) (is_finished e && not (in_list kept e))
      (All-append_one (IsApart d) kept (as_completed e) h k) h

retain_dropped-IsApart :
    (d : Download) (queue former kept : List Download)
    → All (IsApart d) kept
    → All (IsApart d) former
    → All (IsApart d) (retain_dropped queue former kept)
unfolding retain_dropped
retain_dropped-IsApart d queue [] kept h k = h
retain_dropped-IsApart d queue (e ∷ es) kept h (k, ks) =
    retain_dropped-IsApart d queue es _
      (if_both (All (IsApart d)) (in_list queue e) h (retain-IsApart d e kept h k)) ks

same_hash :
    (d x : Download) → same_download x d ≡ true → IsApart d x → bytes_equal x.hash d.hash ≡ true
unfolding same_download
same_hash d x e (inl other) = ground arith
same_hash d x e (inr same) = (bytes_equal_iff x.hash d.hash).1 same

-- Of what is retained and apart, a download that stands for `d` has its hash.
listed-is_kept :
    (d : Download) (kept : List Download)
    → AreKept kept
    → All (IsApart d) kept
    → in_list kept d ≡ true
    → is_kept d.hash kept ≡ true
unfolding in_list
listed-is_kept d [] k h e = absurd (ground arith)
listed-is_kept d (x ∷ xs) (complete, still, apart, rest) (k, hs) e =
    elim (Bool-cases (same_download x d)) [
      | inl same ↦ rw (same_hash d x same k, complete, still) refl
      | inr other ↦ ground (arith, listed-is_kept d xs rest hs (ground arith))
    ]

appended-is_kept :
    (d : Download) (kept : List Download) → is_kept d.hash (kept ++ as_completed d ∷ []) ≡ true
unfolding as_completed
appended-is_kept d kept =
    let itself = (bytes_equal_iff d.hash d.hash).1 refl in
    ground (arith, is_kept-append d.hash kept (as_completed d ∷ []), itself)

retained-is_kept :
    (d : Download) (kept : List Download)
    → is_finished d ≡ true
    → AreKept kept
    → All (IsApart d) kept
    → is_kept d.hash (retain d kept) ≡ true
unfolding retain
retained-is_kept d kept finished k h = elim (Bool-cases (in_list kept d)) [
  | inl e ↦ rw (finished, e) (listed-is_kept d kept k h e)
  | inr e ↦ rw (finished, e) (appended-is_kept d kept)
]

retained_from_queue :
    (before after kept : List Download) (d : Download)
    → is_finished d ≡ true
    → AreKept kept
    → All (IsApart d) kept
    → All (IsApart d) before
    → is_kept d.hash (retain_finished (before ++ d ∷ after) kept) ≡ true
unfolding retain_finished
retained_from_queue [] after kept d finished k h hs =
    is_kept-retain_finished d.hash after (retain d kept) (retained-is_kept d kept finished k h)
retained_from_queue (x ∷ xs) after kept d finished k h (a, hs) =
    retained_from_queue xs after (retain x kept) d finished (retain-AreKept x kept k)
      (retain-IsApart d x kept h a) hs

unfoldable pub updates : List (List Download) → Transfers → Transfers
updates [] t = t
updates (queue ∷ queues) t = updates queues (downloads_updated queue t)

updates-is_kept :
    (h : Hash16) (queues : List (List Download)) (t : Transfers)
    → is_kept h t.retained ≡ true
    → is_kept h (updates queues t).retained ≡ true
unfolding updates downloads_updated
updates-is_kept h [] t k = k
updates-is_kept h (queue ∷ queues) t k =
    updates-is_kept h queues _
      (is_kept-retain_finished h queue _ (is_kept-retain_dropped h queue t.last_queue t.retained k))

-- After any events, a download that a queue lists as finished is retained under its hash, as
-- complete and with no speed, through whatever queues arrive next, as long as nothing but queues
-- does: where no download that is retained by then, or stood in the queue before, or stands before
-- it in its queue, has its EC id but another hash.
pub finished_stays :
    (es : List Event) (before after : List Download) (d : Download) (queues : List (List Download))
    → is_finished d ≡ true
    → All (IsApart d) (take_events es no_transfers).retained
    → All (IsApart d) (take_events es no_transfers).last_queue
    → All (IsApart d) before
    → is_kept d.hash
        (updates queues
          (downloads_updated (before ++ d ∷ after) (take_events es no_transfers))).retained
      ≡ true
unfolding downloads_updated
finished_stays es before after d queues finished apart former earlier =
    let t = take_events es no_transfers in
    let queue = before ++ d ∷ after in
    updates-is_kept d.hash queues _ (
      retained_from_queue before after (retain_dropped queue t.last_queue t.retained) d finished
        (retain_dropped-AreKept queue t.last_queue t.retained (take_events-retained es))
        (retain_dropped-IsApart d queue t.last_queue t.retained apart former) earlier)

in_list-missing_from :
    (queue before after : List Download) (r : Download)
    → in_list queue r ≡ false
    → IsIdentified r
    → in_list (missing_from queue (before ++ r ∷ after)) r ≡ true
unfolding missing_from in_list
in_list-missing_from queue [] after r absent h = rw absent (rw h refl)
in_list-missing_from queue (x ∷ xs) after r absent h =
    ground (arith, in_list-missing_from queue xs after r absent h)

-- Every download retained that has a hash or an EC id is on screen: in the queue, or after it.
pub retained_shown :
    (t : Transfers) (before after : List Download) (r : Download)
    → t.retained ≡ before ++ r ∷ after
    → IsIdentified r
    → in_list (display t) r ≡ true
unfolding display
retained_shown t before after r e h =
    let shown = in_list-append t.last_queue (missing_from t.last_queue t.retained) r in
    elim (Bool-cases (in_list t.last_queue r)) [
      | inl listed ↦ ground (arith, shown)
      | inr absent ↦
          let added = in_list-missing_from t.last_queue before after r absent h in
          rw (shown, absent, e) added
    ]
