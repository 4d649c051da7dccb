-- ===== src/Worker/State.antt =====
-- core/ec/worker.h: the worker's state and signals.
use amule_remote_qt.Base.{ℕ, Bool, false, Option, none, List, [], ◌∷◌, ◌++◌}
use amule_remote_qt.Ec.Bytes.{Text}
use amule_remote_qt.Ec.Outcome.{Outcome, Call}
use amule_remote_qt.Ec.Packet.{Packet}
use amule_remote_qt.Model.Types.{
  Stats, Download, ConnState, Server, SharedFile, SourceClient, SearchResult,
}
use amule_remote_qt.Model.Prefs.{DaemonPrefs}
use amule_remote_qt.Queries.Sources.{Sources}

pub data ConnStatus : Type 0 where
  disconnected connecting connected error : ConnStatus

pub data Signal : Type 0 where
  status_changed : ConnStatus → Text → Signal
  log_message : Text → Signal
  stats_updated : Stats → Signal
  downloads_updated : List Download → Signal
  conn_state_updated : ConnState → Signal
  servers_updated : List Server → Signal
  shared_files_updated : List SharedFile → Signal
  sources_updated : List SourceClient → Signal
  search_progress_changed : ℕ → Signal
  search_results_updated : List SearchResult → Signal
  searching_changed : Bool → Signal
  prefs_updated : DaemonPrefs → Signal

-- `S` is the state of an EcClient. `refreshing`: the timer runs; `at100_since`: when the progress
-- timer was started; `emitted`: the signals so far, oldest first.
pub record Worker (S : Type 0) : Type 0 where
  pub client : Option S
  pub sources : Sources
  pub refreshing : Bool
  pub searching : Bool
  pub at100 : Bool
  pub at100_since : ℕ
  pub emitted : List Signal

-- The worker as it is constructed.
abbrev pub new_worker : {S : Type 0} → Worker S
new_worker = record {
  client = none;
  sources = [];
  refreshing = false;
  searching = false;
  at100 = false;
  at100_since = 0;
  emitted = [];
}

abbrev pub emit : {S : Type 0} → Signal → Worker S → Worker S
emit signal w = record w { emitted = w.emitted ++ signal ∷ [] }

-- What the worker uses: a connection to the daemon (EcClient::connectWithMd5 and exchange), the
-- conversion and comparison of doubles, and the order in which an unordered map is gone through.
pub record Daemon (S : Type 0) : Type 0 where
  pub connect : Text → ℕ → Text → Outcome S
  pub version : S → Text
  pub send : Packet → Call S Packet
  pub to_double : ℕ → ℕ
  pub greater : ℕ → ℕ → Bool
  pub iterate : Sources → Sources
