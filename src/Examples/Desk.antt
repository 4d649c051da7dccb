-- ===== src/Examples/Desk.antt =====
-- The window, the form and the two queues at concrete inputs.
use amule_remote_qt.Base.{
  ℕ, suc, ◌+◌, ◌*◌, ◌/◌, ◌≡◌, refl, true, false, none, List, [], ◌∷◌, replicate, ltb, arith,
}
use amule_remote_qt.Codes.Op
use amule_remote_qt.Codes.FileTag
use amule_remote_qt.Ec.Bytes.{Qt, text}
use amule_remote_qt.Ec.Tag.{nil, cons, leaf, integer}
use amule_remote_qt.Ec.Outcome.{ok}
use amule_remote_qt.Ec.Client.Password.{is_md5_hex, is_hex_digit, md5_hex}
use amule_remote_qt.Model.Prefs.{new_daemon_prefs}
use amule_remote_qt.Model.Types.{new_conn_state}
use amule_remote_qt.Model.Figures.{Figures}
use amule_remote_qt.Worker.State.{new_worker, Daemon, conn_state_updated}
use amule_remote_qt.Worker.Slots.{connect_to_daemon, step}
use amule_remote_qt.App.Tables.{new_source_table}
use amule_remote_qt.App.Transfers.{no_transfers}
use amule_remote_qt.App.SearchPanel.Slots.{new_panel}
use amule_remote_qt.App.PreferencesPanel.Form.{set_form, collect}
use amule_remote_qt.App.PreferencesPanel.Unedited.{collect-set_form}
use amule_remote_qt.App.MainWindow.{Desktop, Settings, Window}
use amule_remote_qt.App.MainWindow.Connection.{RemoteConfEc, load_settings, save_settings}
use amule_remote_qt.App.MainWindow.Inputs.{edit_password, return_in_password}
use amule_remote_qt.App.MainWindow.Passwords.{IsHexing, connect_remembered}
use amule_remote_qt.App.MainWindow.Stored.{
  Occurrence, Holds, typed, by_user, by_worker, window_run, password_md5-window_run,
}
use amule_remote_qt.Examples.Samples.{ascii_qt}
use amule_remote_qt.Examples.Panel.{plain_toolkit}

-- Digests print as the digit 0.
abbrev pub zero_qt : Qt
zero_qt = record ascii_qt { md5 = λ b. replicate 32 b'0' }

zero_qt-IsHexing : IsHexing zero_qt
unfolding is_md5_hex is_hex_digit md5_hex
zero_qt-IsHexing = record {
  digest_hex = λ b. refl;
  digest_lower = λ b. refl;
  lower_hex = λ t h. h;
  lower_again = λ t. refl;
}

abbrev pub plain_figures : Figures
plain_figures = record {
  quotient = λ a b digits. (b'0' + a / b) ∷ [];
  ratio = λ a b. a / b;
  percent_text = λ x. (b'0' + x) ∷ [];
  percent_int = λ x. 100 * x;
  is_positive = λ x. ltb 0 x;
  whole = λ x. x;
}

abbrev pub plain_desktop : Desktop
plain_desktop = record {
  toolkit = plain_toolkit;
  qt = zero_qt;
  tr = λ s. s;
  args = λ pattern arguments. pattern;
  figures = plain_figures;
}

abbrev no_settings : Settings
no_settings = record { host = []; port = 0; remember = false; password_md5 = none }

abbrev pub a_window : Window
a_window = record {
  host = text "host";
  port = 4712;
  password = text "secret";
  remember = true;
  settings = no_settings;
  status_text = [];
  status_color = [];
  net_text = [];
  stats_text = [];
  connect_enabled = true;
  disconnect_enabled = false;
  connected = false;
  transfers = no_transfers;
  downloads = [];
  servers = [];
  shared = [];
  sources = new_source_table;
  panel = new_panel plain_toolkit [];
  form = set_form new_daemon_prefs;
  graph = record { down = []; up = [] };
  log = [];
  queue = [];
}

collect-set_form_example : collect (set_form new_daemon_prefs) ≡ new_daemon_prefs
collect-set_form_example = collect-set_form new_daemon_prefs (ground arith) (omega arith)

abbrev doings : List Occurrence
doings =
    by_user (edit_password (text "other"))
    ∷ (by_user return_in_password ∷ (by_worker (conn_state_updated new_conn_state) ∷ []))

password_md5-window_run_example :
    Holds zero_qt
      (text "secret" ∷ typed doings)
      none
      (window_run plain_desktop doings a_window).settings.password_md5
password_md5-window_run_example = password_md5-window_run plain_desktop doings a_window

-- A daemon whose every reply names a progress of 100.
abbrev pub done_daemon : Daemon ℕ
done_daemon = record {
  connect = λ host port password. ok 0;
  version = λ s. text "2.3.3";
  send = λ p s. (
    ok (record { opcode = Op.noop; tags = cons (leaf FileTag.search_status (integer 100)) nil }),
    suc s,
  );
  to_double = λ n. n;
  greater = λ a b. ltb b a;
  iterate = λ m. m;
}

abbrev no_conf : RemoteConfEc
no_conf = record { host = []; port = 0 }

connect_remembered_example :
    step zero_qt done_daemon 0
      (connect_to_daemon
        (text "host")
        4712
        (load_settings no_conf (save_settings plain_desktop a_window).settings a_window).password)
      new_worker
    ≡ step zero_qt done_daemon 0 (connect_to_daemon (text "host") 4712 (text "secret")) new_worker
connect_remembered_example =
    connect_remembered plain_desktop zero_qt-IsHexing done_daemon no_conf a_window a_window 0
      (text "host") 4712 new_worker refl
