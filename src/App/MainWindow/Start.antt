-- ===== src/App/MainWindow/Start.antt =====
-- The constructor of app/mainwindow.cpp, and a window that is opened with the settings of another.
use amule_remote_qt.Base.{
  ℕ, ◌≡◌, ◌≤◌, ◌==◌, refl, Bool, true, false, Option, none, some, List, [], if◌then◌else◌, arith,
}
use amule_remote_qt.Ec.Bytes.{Bytes, Text}
use amule_remote_qt.Ec.Client.Password.{normalize_password_md5}
use amule_remote_qt.Model.Prefs.{new_daemon_prefs}
use amule_remote_qt.Worker.State.{disconnected}
use amule_remote_qt.App.SearchFilter.{is_empty}
use amule_remote_qt.App.Tables.{each, new_source_table}
use amule_remote_qt.App.Transfers.{no_transfers}
use amule_remote_qt.App.SpeedGraph
use amule_remote_qt.App.SearchPanel.Slots.{new_panel}
use amule_remote_qt.App.PreferencesPanel.{PreferencesPanel}
use amule_remote_qt.App.PreferencesPanel.Bindings.{bools, ints, strings}
use amule_remote_qt.App.MainWindow.{Desktop, Settings, Window}
use amule_remote_qt.App.MainWindow.Connection.{
  RemoteConfEc, load_address, port_shows, stored_password, load_settings, save_settings,
}
use amule_remote_qt.App.MainWindow.Signals.{on_status_changed}

-- The form of the constructor: boxes that are not checked, 0 in every spin box, no text.
abbrev pub new_form : PreferencesPanel
new_form = record {
  current = new_daemon_prefs;
  flags = each (λ b. false) bools;
  numbers = each (λ i. 0) ints;
  texts = each (λ s. []) strings;
  can_see_shares = some 0;
}

-- The widgets as `buildUi` makes them, with the file of saved searches.
unfoldable pub build_ui : Desktop → Settings → Bytes → Window
build_ui d s searches = record {
  host = [];
  port = 4712;
  password = [];
  remember = false;
  settings = s;
  status_text = [];
  status_color = [];
  net_text = [];
  stats_text = [];
  connect_enabled = true;
  disconnect_enabled = true;
  connected = true;
  transfers = no_transfers;
  downloads = [];
  servers = [];
  shared = [];
  sources = new_source_table;
  panel = new_panel d.toolkit searches;
  form = new_form;
  graph = record { down = []; up = [] };
  log = [];
  queue = [];
}

-- `history` is what the file of the speed graph holds.
unfoldable pub restore_history : Option (List ℕ × List ℕ) → Window → Window
restore_history history w = record w { graph = SpeedGraph.load history w.graph }

unfoldable pub new_window :
    Desktop → RemoteConfEc → Settings → Bytes → Option (List ℕ × List ℕ) → Window
new_window d ec s searches history =
    restore_history history
      (on_status_changed d disconnected [] (load_settings ec s (build_ui d s searches)))

load_address-named :
    (ec : RemoteConfEc) (s : Settings)
    → is_empty s.host ≡ false
    → 1 ≤ s.port
    → load_address ec s ≡ (s.host, s.port)
unfolding load_address
load_address-named ec s named least =
    let given : (s.port == 0) ≡ false = ground arith in rw (named, given) refl

port_shows-shown : (port : ℕ) → 1 ≤ port → port ≤ 65535 → port_shows port ≡ port
unfolding port_shows
port_shows-shown port least most = ground arith

stored_if :
    (remember : Bool) (digest : Text)
    → (if remember then stored_password (if remember then some digest else none) else [])
      ≡ (if remember then digest else [])
stored_if true digest = refl
stored_if false digest = refl

-- A window that is opened with the settings of another, whose trimmed host is not empty and whose
-- port is one that the spin box shows, has this host and port, and the digest of its password where
-- that is to be remembered; it is not connected.
pub new_window-save_settings :
    (d : Desktop) (ec : RemoteConfEc) (w : Window) (searches : Bytes)
    (history : Option (List ℕ × List ℕ))
    → is_empty (d.toolkit.matching.trimmed w.host) ≡ false
    → 1 ≤ w.port
    → w.port ≤ 65535
    → let v = new_window d ec (save_settings d w).settings searches history in
      (v.host ≡ d.toolkit.matching.trimmed w.host)
      × (v.port ≡ w.port)
      × (v.remember ≡ w.remember)
      × (v.connected ≡ false)
      × (v.password ≡ (if w.remember then normalize_password_md5 d.qt w.password else []))
unfolding new_window restore_history build_ui load_settings save_settings on_status_changed
new_window-save_settings d ec w searches history named least most =
    rw (load_address-named ec (save_settings d w).settings named least) (
      refl,
      port_shows-shown w.port least most,
      refl,
      refl,
      stored_if w.remember (normalize_password_md5 d.qt w.password),
    )
