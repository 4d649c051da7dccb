-- ===== src/App/System.antt =====
-- app/mainwindow.cpp on its own thread and core/ec/worker.cpp on the worker's: the two queues between
-- them, taken in any order.
pub mod Visible
pub mod Agreement
use amule_remote_qt.Base.{ℕ, ◌≡◌, true, List, [], ◌∷◌, ◌++◌}
use amule_remote_qt.Worker.State.{Signal, Worker, Daemon, new_worker}
use amule_remote_qt.Worker.Slots.{Command, step, refresh}
use amule_remote_qt.App.MainWindow.{Desktop, Window}
use amule_remote_qt.App.MainWindow.Signals.{take_signal}
use amule_remote_qt.App.MainWindow.Inputs.{Input, take_input}

-- The worker's signals are queued to the window; `heard` are those that the window has taken, the
-- oldest of all that the worker has emitted. The slots queued to the worker are the window's queue.
pub record System (S : Type 0) : Type 0 where
  pub worker : Worker S
  pub window : Window
  pub heard : List Signal

abbrev pub started : {S : Type 0} → Window → System S
started window = record { worker = new_worker; window = window; heard = [] }

module _ {S : Type 0} (d : Desktop) (dm : Daemon S) where
  -- The user acts; the worker takes the next slot of the queue; its timer fires; or the window
  -- takes the next signal.
  pub data SystemStep (s : System S) : System S → Type 0 where
    acts : (i : Input) → SystemStep s (record s { window = take_input d i s.window })
    serves :
        (now : ℕ) (c : Command) (cs : List Command)
        → s.window.queue ≡ c ∷ cs
        → SystemStep s (record s {
          worker = step d.qt dm now c s.worker;
          window = record s.window { queue = cs };
        })
    ticks :
        (now : ℕ)
        → s.worker.refreshing ≡ true
        → SystemStep s (record s { worker = step d.qt dm now refresh s.worker })
    hears :
        (signal : Signal) (rest : List Signal)
        → s.worker.emitted ≡ s.heard ++ signal ∷ rest
        → SystemStep s
            (record s { window = take_signal d signal s.window; heard = s.heard ++ signal ∷ [] })

  -- Any order of steps.
  pub data Reaches (s : System S) : System S → Type 0 where
    here : Reaches s s
    next : {t u : System S} → Reaches s t → SystemStep t u → Reaches s u
