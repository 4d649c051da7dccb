-- ===== src/App/MainWindow.antt =====
-- app/mainwindow.h and app/mainwindow.cpp: what the main window holds and shows.
pub mod Connection
pub mod Signals
pub mod Actions
pub mod Inputs
pub mod Start
pub mod Passwords
pub mod Kept
pub mod Stored
use amule_remote_qt.Base.{ℕ, Bool, Option, List, ◌++◌, [], ◌∷◌}
use amule_remote_qt.Ec.Bytes.{Text, Qt}
use amule_remote_qt.Model.Types.{Download, Server, SharedFile}
use amule_remote_qt.Model.Figures.{Figures}
use amule_remote_qt.Worker.Slots.{Command}
use amule_remote_qt.App.Tables.{SourceTable}
use amule_remote_qt.App.Transfers.{Transfers}
use amule_remote_qt.App.SpeedGraph.{SpeedGraph}
use amule_remote_qt.App.SearchPanel.{Toolkit, SearchPanel}
use amule_remote_qt.App.PreferencesPanel.{PreferencesPanel}

-- What the window takes from Qt beside the panel's toolkit: the core's conversions, the translation
-- of a text, QString::arg with several texts at once, and the formats of doubles.
pub record Desktop : Type 0 where
  pub toolkit : Toolkit
  pub qt : Qt
  pub tr : Text → Text
  pub args : Text → List Text → Text
  pub figures : Figures

-- The keys of QSettings that the window uses; a key that is missing reads as the empty text, as 0
-- or as false.
pub record Settings : Type 0 where
  pub host : Text
  pub port : ℕ
  pub remember : Bool
  pub password_md5 : Option Text

-- The connection bar, the settings, the labels, `connected` for whether the widgets of
-- `connectedWidgets_` are enabled, the tables' rows, the panels, and the slots of the worker that
-- are queued, oldest first.
pub record Window : Type 0 where
  pub host : Text
  pub port : ℕ
  pub password : Text
  pub remember : Bool
  pub settings : Settings
  pub status_text : Text
  pub status_color : Text
  pub net_text : Text
  pub stats_text : Text
  pub connect_enabled : Bool
  pub disconnect_enabled : Bool
  pub connected : Bool
  pub transfers : Transfers
  pub downloads : List Download
  pub servers : List Server
  pub shared : List SharedFile
  pub sources : SourceTable
  pub panel : SearchPanel
  pub form : PreferencesPanel
  pub graph : SpeedGraph
  pub log : List Text
  pub queue : List Command

-- QMetaObject::invokeMethod with a queued connection.
abbrev pub post : Command → Window → Window
post c w = record w { queue = w.queue ++ c ∷ [] }

-- `onLog`: every line that was appended, of which the text box keeps the last 500.
abbrev pub on_log : Text → Window → Window
on_log message w = record w { log = w.log ++ message ∷ [] }
