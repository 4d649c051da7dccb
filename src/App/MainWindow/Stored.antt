-- ===== src/App/MainWindow/Stored.antt =====
-- What app/mainwindow.cpp stores of a password, over whole histories of the window.
use amule_remote_qt.Base.{
  ◌≡◌, refl, subst, sym, true, false, ◌⊎◌, All, Option, none, some, List, [], ◌∷◌, if_both,
  Bool-cases, inl, inr,
}
use amule_remote_qt.Ec.Bytes.{Text, Qt}
use amule_remote_qt.Ec.Client.Password.{is_md5_hex, md5_hex, normalize_password_md5}
use amule_remote_qt.Worker.State
use amule_remote_qt.Worker.State.{Signal, Worker, Daemon}
use amule_remote_qt.App.SearchFilter.{is_empty}
use amule_remote_qt.App.MainWindow.{Desktop, Window}
use amule_remote_qt.App.MainWindow.Connection.{save_settings, on_connect_clicked}
use amule_remote_qt.App.MainWindow.Signals.{
  refresh_download_view, on_downloads_updated, on_status_changed, on_stats, on_conn_state,
  take_signal,
}
use amule_remote_qt.App.MainWindow.Actions.{in_panel}
use amule_remote_qt.App.MainWindow.Inputs
use amule_remote_qt.App.MainWindow.Inputs.{Input, is_user, take_input}
use amule_remote_qt.App.SearchPanel.Events.{PanelEvent}
use amule_remote_qt.App.MainWindow.Kept.{edits_password, input_keeps}

-- What is stored of a password: its MD5 digest, or the password in lower case where it is 32
-- hexadecimal digits itself.
abbrev pub DigestOf : Qt → Text → Option Text → Type 0
DigestOf qt p o =
    ((is_md5_hex p ≡ false) × (o ≡ some (md5_hex qt (qt.to_utf8 p))))
    ⊎ ((is_md5_hex p ≡ true) × (o ≡ some (qt.to_lower p)))

-- What is stored of one of the passwords.
abbrev pub DigestOfOne : Qt → List Text → Option Text → Type 0
DigestOfOne qt [] o = ⊥
DigestOfOne qt (p ∷ ps) o = DigestOf qt p o ⊎ DigestOfOne qt ps o

abbrev Among : Text → List Text → Type 0
Among t [] = ⊥
Among t (p ∷ ps) = (t ≡ p) ⊎ Among t ps

DigestOfOne-Among :
    (qt : Qt) (p : Text) (ps : List Text) (o : Option Text)
    → Among p ps
    → DigestOf qt p o
    → DigestOfOne qt ps o
DigestOfOne-Among qt p [] o none_left h = elim none_left [ ]
DigestOfOne-Among qt p (q ∷ qs) o (inl e) h = inl (subst (λ t. DigestOf qt t o) e h)
DigestOfOne-Among qt p (q ∷ qs) o (inr k) h = inr (DigestOfOne-Among qt p qs o k h)

-- The settings hold no password, or what they held at first, or what is stored of one of `ps`.
abbrev pub Holds : Qt → List Text → Option Text → Option Text → Type 0
Holds qt ps first o = (o ≡ none) ⊎ ((o ≡ first) ⊎ DigestOfOne qt ps o)

-- The password shown is one of `ps`, too.
record Remembers (qt : Qt) (ps : List Text) (first : Option Text) (w : Window) : Type 0 where
  shown : Among w.password ps
  holds : Holds qt ps first w.settings.password_md5

-- The settings are left alone.
pub record SameSettings (w v : Window) : Type 0 where
  pub same : v.settings ≡ w.settings
  pub password : v.password ≡ w.password

-- What happens to a window: an input of the user or a signal of the worker.
pub data Occurrence : Type 0 where
  by_user : Input → Occurrence
  by_worker : Signal → Occurrence

unfoldable pub happen : Desktop → Occurrence → Window → Window
happen d (by_user i) w = take_input d i w
happen d (by_worker s) w = take_signal d s w

unfoldable pub window_run : Desktop → List Occurrence → Window → Window
window_run d [] w = w
window_run d (o ∷ os) w = window_run d os (happen d o w)

-- The passwords that the user types.
unfoldable pub typed : List Occurrence → List Text
typed [] = []
typed (by_user (Inputs.edit_password t) ∷ os) = t ∷ typed os
typed (by_user i ∷ os) = typed os
typed (by_worker s ∷ os) = typed os

All-map : {P Q : Text → Type 0} → ((t : Text) → P t → Q t) → (ts : List Text) → All P ts → All Q ts
All-map f [] h = tt
All-map f (t ∷ ts) (h, hs) = (f t h, All-map f ts hs)

module _ (d : Desktop) where
  signal-SameSettings : (s : Signal) (w : Window) → SameSettings w (take_signal d s w)
  unfolding take_signal on_status_changed on_stats on_conn_state on_downloads_updated
      refresh_download_view
  signal-SameSettings (State.status_changed status detail) w = record {
    same = refl;
    password = refl;
  }
  signal-SameSettings (State.stats_updated s) w = record { same = refl; password = refl }
  signal-SameSettings (State.conn_state_updated c) w = record { same = refl; password = refl }
  signal-SameSettings (State.prefs_updated prefs) w = record { same = refl; password = refl }
  signal-SameSettings (State.log_message message) w = record { same = refl; password = refl }
  signal-SameSettings (State.downloads_updated ds) w = record { same = refl; password = refl }
  signal-SameSettings (State.search_results_updated rs) w = record { same = refl; password = refl }
  signal-SameSettings (State.search_progress_changed n) w = record { same = refl; password = refl }
  signal-SameSettings (State.searching_changed b) w = record { same = refl; password = refl }
  signal-SameSettings (State.servers_updated ss) w = record { same = refl; password = refl }
  signal-SameSettings (State.shared_files_updated fs) w = record { same = refl; password = refl }
  signal-SameSettings (State.sources_updated cs) w = record { same = refl; password = refl }

  module _ (ps : List Text) (first : Option Text) where
    same-Remembers :
        (w v : Window)
        → v.settings ≡ w.settings
        → v.password ≡ w.password
        → Remembers d.qt ps first w
        → Remembers d.qt ps first v
    same-Remembers w v e f h = record {
      shown = subst (λ t. Among t ps) (sym f) h.shown;
      holds = subst (λ s. Holds d.qt ps first s.password_md5) (sym e) h.holds;
    }

    normalized : (p : Text) → DigestOf d.qt p (some (normalize_password_md5 d.qt p))
    unfolding normalize_password_md5
    normalized p = elim (Bool-cases (is_md5_hex p)) [
      | inl e ↦ rw e (inr (refl, refl))
      | inr e ↦ rw e (inl (refl, refl))
    ]

    saved : (w : Window) → Remembers d.qt ps first w → Remembers d.qt ps first (save_settings d w)
    unfolding save_settings
    saved w h = elim (Bool-cases w.remember) [
      | inl e ↦ record {
        shown = h.shown;
        holds =
            rw e
              (inr (inr (DigestOfOne-Among d.qt w.password ps _ h.shown (normalized w.password))));
      }
      | inr e ↦ record { shown = h.shown; holds = rw e (inl refl) }
    ]

    connect-Remembers :
        (w : Window) → Remembers d.qt ps first w → Remembers d.qt ps first (on_connect_clicked d w)
    unfolding on_connect_clicked
    connect-Remembers w h =
        if_both (Remembers d.qt ps first) (is_empty (d.toolkit.matching.trimmed w.host))
          (same-Remembers w _ refl refl h)
          (same-Remembers (save_settings d w) _ refl refl (saved w h))

    panel-Remembers :
        (e : PanelEvent) (w : Window)
        → is_user e ≡ true
        → Remembers d.qt ps first w
        → Remembers d.qt ps first (in_panel d e w)
    unfolding in_panel
    panel-Remembers e w u h = same-Remembers w _ refl refl h

    input-Remembers :
        (i : Input) (w : Window)
        → edits_password i ≡ false
        → Remembers d.qt ps first w
        → Remembers d.qt ps first (take_input d i w)
    input-Remembers =
        input_keeps d (Remembers d.qt ps first) (λ w v k. same-Remembers w v k.settings k.password)
          connect-Remembers panel-Remembers

    run-Remembers :
        (os : List Occurrence) (w : Window)
        → All (λ t. Among t ps) (typed os)
        → Remembers d.qt ps first w
        → Remembers d.qt ps first (window_run d os w)
    unfolding window_run happen take_input typed
    run-Remembers [] w a h = h
    run-Remembers (by_user (Inputs.edit_password t) ∷ os) w (a, rest) h =
        run-Remembers os _ rest (record { shown = a; holds = h.holds })
    run-Remembers (by_worker s ∷ os) w a h =
        let k = signal-SameSettings s w in
        run-Remembers os _ a (same-Remembers w _ k.same k.password h)
    run-Remembers (by_user i ∷ os) w a h = run-Remembers os _ a (input-Remembers i w refl h)

  each_among : (ts : List Text) (p : Text) → All (λ t. Among t (p ∷ ts)) ts
  each_among [] p = tt
  each_among (t ∷ ts) p = (inr (inl refl), All-map (λ u k. inr k) ts (each_among ts t))

  -- Whatever the user does and the worker says, the settings hold under "password_md5" nothing, or
  -- what they held at first, or, of a password that the window showed at first or that the user
  -- typed since, its MD5 digest, and the password in lower case only where it is 32 hexadecimal
  -- digits itself.
  pub password_md5-window_run :
      (os : List Occurrence) (w : Window)
      → Holds d.qt
          (w.password ∷ typed os)
          w.settings.password_md5
          (window_run d os w).settings.password_md5
  password_md5-window_run os w =
      (run-Remembers (w.password ∷ typed os) w.settings.password_md5 os w
        (each_among (typed os) w.password)
        (record { shown = inl refl; holds = inr (inl refl) })).holds
