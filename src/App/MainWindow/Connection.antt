-- ===== src/App/MainWindow/Connection.antt =====
-- The connection bar of app/mainwindow.cpp and its settings.
use amule_remote_qt.Base.{
  ℕ, ◌%◌, ◌^◌, Bool, false, Option, none, some, [], ltb, ◌==◌, if◌then◌else◌,
}
use amule_remote_qt.Ec.Bytes.{Text, text}
use amule_remote_qt.Ec.Client.Password.{normalize_password_md5}
use amule_remote_qt.Worker.Slots.{connect_to_daemon, disconnect}
use amule_remote_qt.App.SearchFilter.{is_empty}
use amule_remote_qt.App.MainWindow.{Desktop, Settings, Window, post, on_log}

-- `readRemoteConfEc`: what is read of ~/.aMule/remote.conf, with its host trimmed; empty and 0 where
-- there is none. A port is the pattern of an `int`.
pub record RemoteConfEc : Type 0 where
  pub host : Text
  pub port : ℕ

-- `none` where the file does not exist.
unfoldable pub read_remote_conf_ec : Desktop → Option (Text × ℕ) → RemoteConfEc
read_remote_conf_ec d none = record { host = []; port = 0 }
read_remote_conf_ec d (some (host, port)) = record {
  host = d.toolkit.matching.trimmed host;
  port = port;
}

-- `ec.port > 0` of an `int`.
abbrev is_positive : ℕ → Bool
is_positive n = if n == 0 then false else ltb n (2 ^ 31)

-- The host and the port to begin with.
unfoldable pub load_address : RemoteConfEc → Settings → Text × ℕ
load_address ec s =
    let default_port = if s.port == 0 then 4712 else s.port in
    if is_empty s.host
    then (
      if is_empty ec.host then text "127.0.0.1" else ec.host,
      if s.port == 0 then (if is_positive ec.port then ec.port else 4712) else s.port,
    )
    else (s.host, default_port)

-- What the spin box, from 1 to 65535, shows of the pattern of an `int`.
unfoldable pub port_shows : ℕ → ℕ
port_shows i =
    if i == 0 then 1 else if ltb i (2 ^ 31) then (if ltb 65535 i then 65535 else i) else 1

abbrev pub stored_password : Option Text → Text
stored_password none = []
stored_password (some digest) = digest

unfoldable pub load_settings : RemoteConfEc → Settings → Window → Window
load_settings ec s w = record w {
  settings = s;
  host = (load_address ec s).0;
  port = port_shows (load_address ec s).1;
  remember = s.remember;
  password = if s.remember then stored_password s.password_md5 else w.password;
}

unfoldable pub save_settings : Desktop → Window → Window
save_settings d w = record w {
  settings = record {
    host = d.toolkit.matching.trimmed w.host;
    port = w.port;
    remember = w.remember;
    password_md5 = if w.remember then some (normalize_password_md5 d.qt w.password) else none;
  };
}

-- `static_cast<quint16>` of the port.
unfoldable pub on_connect_clicked : Desktop → Window → Window
on_connect_clicked d w =
    let host = d.toolkit.matching.trimmed w.host in
    if is_empty host
    then on_log (d.tr (text "enter a host first")) w
    else post (connect_to_daemon host (w.port % 2 ^ 16) w.password) (save_settings d w)

unfoldable pub on_disconnect_clicked : Window → Window
on_disconnect_clicked w = post disconnect w
