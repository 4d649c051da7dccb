-- ===== src/App/System/Agreement.antt =====
-- What the window of app/mainwindow.cpp shows against what core/ec/worker.cpp holds, in any order of
-- their steps.
use amule_remote_qt.Base.{◌≡◌, refl, sym, ap, subst, ◌∙◌, Bool, true, false, [], ◌∷◌, if_both, leb}
use amule_remote_qt.Worker.State
use amule_remote_qt.Worker.State.{Signal, Worker, Daemon, new_worker}
use amule_remote_qt.Worker.Slots.{refresh}
use amule_remote_qt.Worker.Searching.{shown, shown-append, Told}
use amule_remote_qt.Worker.Searching.Histories.{step-Told}
use amule_remote_qt.App.SearchFilter.{is_empty}
use amule_remote_qt.App.SearchPanel.{SearchPanel}
use amule_remote_qt.App.SearchPanel.Downloads.{set_progress, set_searching}
use amule_remote_qt.App.SearchPanel.Core.{set_panel_results-core}
use amule_remote_qt.App.SearchPanel.Events.{PanelEvent}
use amule_remote_qt.App.MainWindow.{Desktop, Window}
use amule_remote_qt.App.MainWindow.Connection.{save_settings, on_connect_clicked}
use amule_remote_qt.App.MainWindow.Signals.{
  on_status_changed, on_stats, on_conn_state, on_downloads_updated, refresh_download_view,
  take_signal,
}
use amule_remote_qt.App.MainWindow.Actions.{in_panel}
use amule_remote_qt.App.MainWindow.Inputs
use amule_remote_qt.App.MainWindow.Inputs.{Input, is_user, take_input}
use amule_remote_qt.App.MainWindow.Kept.{input_keeps}
use amule_remote_qt.App.System.{
  System, started, SystemStep, acts, serves, ticks, hears, Reaches, here, next,
}
use amule_remote_qt.App.System.Visible.{SameCore-Bar, panel_step-Bar}

-- The progress bar of a window.
pub record Shows (b : Bool) (w : Window) : Type 0 where
  pub bar : w.panel.progress_visible ≡ b

module _ (d : Desktop) (b : Bool) where
  connect-Shows : (w : Window) → Shows b w → Shows b (on_connect_clicked d w)
  unfolding on_connect_clicked save_settings
  connect-Shows w h =
      if_both (Shows b) (is_empty (d.toolkit.matching.trimmed w.host)) (record { bar = h.bar })
        (record { bar = h.bar })

  panel-Shows :
      (e : PanelEvent) (w : Window) → is_user e ≡ true → Shows b w → Shows b (in_panel d e w)
  unfolding in_panel
  panel-Shows e w u h = record {
    bar = (panel_step-Bar b d.toolkit e w.panel u (record { visible = h.bar })).visible;
  }

  input-Shows : (i : Input) (w : Window) → Shows b w → Shows b (take_input d i w)
  unfolding take_input
  input-Shows (Inputs.edit_password t) w h = record { bar = h.bar }
  input-Shows i w h =
      input_keeps d (Shows b)
        (λ w v k h. record { bar = ap (λ p. p.progress_visible) k.panel ∙ h.bar }) connect-Shows
        panel-Shows i w refl h

-- A signal shows or hides the bar as it says.
signal-Shows :
    (d : Desktop) (b : Bool) (s : Signal) (w : Window)
    → Shows b w
    → Shows (shown b (s ∷ [])) (take_signal d s w)
unfolding shown take_signal on_status_changed on_stats on_conn_state on_downloads_updated
    refresh_download_view set_progress set_searching
signal-Shows d b (State.status_changed status detail) w h = record { bar = h.bar }
signal-Shows d b (State.stats_updated s) w h = record { bar = h.bar }
signal-Shows d b (State.conn_state_updated c) w h = record { bar = h.bar }
signal-Shows d b (State.prefs_updated prefs) w h = record { bar = h.bar }
signal-Shows d b (State.log_message message) w h = record { bar = h.bar }
signal-Shows d b (State.downloads_updated ds) w h = record { bar = h.bar }
signal-Shows d b (State.search_results_updated rs) w h =
    let same =
      SameCore-Bar b w.panel _ (set_panel_results-core d.toolkit rs w.panel)
        (record { visible = h.bar }) in
    record { bar = same.visible }
signal-Shows d b (State.search_progress_changed n) w h = record {
  bar = if_both (λ (p : SearchPanel). p.progress_visible ≡ b) (leb n 100) h.bar h.bar;
}
signal-Shows d b (State.searching_changed c) w h = record { bar = refl }
signal-Shows d b (State.servers_updated ss) w h = record { bar = h.bar }
signal-Shows d b (State.shared_files_updated fs) w h = record { bar = h.bar }
signal-Shows d b (State.sources_updated cs) w h = record { bar = h.bar }

module _ {S : Type 0} (d : Desktop) (dm : Daemon S) where
  -- What the window shows is what it has heard, and what the worker has said is what it holds.
  record Agrees (s : System S) : Type 0 where
    shows : Shows (shown false s.heard) s.window
    told : Told s.worker

  step-Agrees : (s t : System S) → SystemStep d dm s t → Agrees s → Agrees t
  step-Agrees s t (acts i) h = record { shows = input-Shows d _ i s.window h.shows; told = h.told }
  step-Agrees s t (serves now c cs e) h = record {
    shows = record { bar = h.shows.bar };
    told = step-Told d.qt dm now c s.worker h.told;
  }
  step-Agrees s t (ticks now e) h = record {
    shows = h.shows;
    told = step-Told d.qt dm now refresh s.worker h.told;
  }
  step-Agrees s t (hears signal rest e) h = record {
    shows =
        subst (λ b. Shows b (take_signal d signal s.window))
          (sym (shown-append false s.heard (signal ∷ [])))
          (signal-Shows d (shown false s.heard) signal s.window h.shows);
    told = h.told;
  }

  any_order : (s t : System S) → Reaches d dm s t → Agrees s → Agrees t
  any_order s t here h = h
  any_order s t (next {t = u} r k) h = step-Agrees u t k (any_order s u r h)

  -- From the start, of a window whose progress bar is hidden and with any daemon, in whatever order
  -- the user acts, the worker serves its slots and its timer, and the window takes the signals: once
  -- the window has taken every signal, its progress bar is visible exactly if the worker is
  -- searching.
  pub progress_bar-searching :
      (w : Window) (t : System S)
      → w.panel.progress_visible ≡ false
      → Reaches d dm (started w) t
      → t.heard ≡ t.worker.emitted
      → t.window.panel.progress_visible ≡ t.worker.searching
  unfolding shown
  progress_bar-searching w t hidden r e =
      let h =
        any_order (started w) t r
          (record { shows = record { bar = hidden }; told = record { shows = refl } }) in
      h.shows.bar ∙ ap (shown false) e ∙ h.told.shows
