-- ===== src/App/MainWindow/Kept.antt =====
-- What the inputs in app/mainwindow.cpp leave alone: the settings, the password, the search
-- panel and the buttons, but for those inputs that connect, edit the password or go to the panel.
use amule_remote_qt.Base.{
  ℕ, ◌≡◌, refl, Bool, true, false, arith, ◌&&◌, Option, none, some, List, if_both, Bool-cases, inl,
  inr, leb,
}
use amule_remote_qt.Ec.Bytes.{Text}
use amule_remote_qt.Ec.Tag.{Hash16}
use amule_remote_qt.Worker.Slots
use amule_remote_qt.Worker.Slots.{Command}
use amule_remote_qt.App.SearchFilter.{is_empty}
use amule_remote_qt.App.MainWindow.{Desktop, Window}
use amule_remote_qt.App.MainWindow.Connection.{on_connect_clicked, on_disconnect_clicked}
use amule_remote_qt.App.MainWindow.Signals.{refresh_download_view}
use amule_remote_qt.App.MainWindow.Actions
use amule_remote_qt.App.MainWindow.Actions.{
  TransferChoice, ServerChoice, delete_downloads, ask, transfer_action, on_table_context_menu,
  menu_hashes, on_server_context_menu, on_transfer_selection_changed, clear_completed, in_panel,
  on_add_link, on_update_servers, on_add_server,
}
use amule_remote_qt.App.MainWindow.Inputs
use amule_remote_qt.App.MainWindow.Inputs.{Input, is_user, take_input}
use amule_remote_qt.App.SearchPanel.Events.{PanelEvent}
use amule_remote_qt.App.MainWindow.Inputs.{enabled}

pub record SameWindow (w v : Window) : Type 0 where
  pub settings : v.settings ≡ w.settings
  pub password : v.password ≡ w.password
  pub panel : v.panel ≡ w.panel
  pub connected : v.connected ≡ w.connected
  pub connect_enabled : v.connect_enabled ≡ w.connect_enabled
  pub disconnect_enabled : v.disconnect_enabled ≡ w.disconnect_enabled

kept :
    {w v : Window}
    → v.settings ≡ w.settings
    → v.password ≡ w.password
    → v.panel ≡ w.panel
    → v.connected ≡ w.connected
    → v.connect_enabled ≡ w.connect_enabled
    → v.disconnect_enabled ≡ w.disconnect_enabled
    → SameWindow w v
kept s t p c ce de = record {
  settings = s;
  password = t;
  panel = p;
  connected = c;
  connect_enabled = ce;
  disconnect_enabled = de;
}

abbrev pub edits_password : Input → Bool
edits_password (Inputs.edit_password t) = true
edits_password _ = false

module _ (d : Desktop) (P : Window → Type 0) (same : (w v : Window) → SameWindow w v → P w → P v)
    (connects : (w : Window) → P w → P (on_connect_clicked d w))
    (panels : (e : PanelEvent) (w : Window) → is_user e ≡ true → P w → P (in_panel d e w)) where
  ask_keeps :
      (command : Text → Command) (answer : Option Text) (w : Window)
      → P w
      → P (ask d command answer w)
  ask_keeps command none w h = h
  ask_keeps command (some answer) w h =
      if_both P (is_empty (d.toolkit.matching.trimmed answer)) h
        (same w _ (kept refl refl refl refl refl refl) h)

  add_server_keeps :
      (answer : Option (Text × Text)) (w : Window) → P w → P (on_add_server d answer w)
  unfolding on_add_server
  add_server_keeps none w h = h
  add_server_keeps (some (name, address)) w h =
      if_both P (is_empty (d.toolkit.matching.trimmed address)) h
        (same w _ (kept refl refl refl refl refl refl) h)

  transfer_keeps :
      (hs : List Hash16) (choice : TransferChoice) (w : Window)
      → P w
      → P (transfer_action hs choice w)
  unfolding delete_downloads refresh_download_view
  transfer_keeps hs (Actions.delete sure) w h =
      if_both P sure (same w _ (kept refl refl refl refl refl refl) h) h
  transfer_keeps hs _ w h = same w _ (kept refl refl refl refl refl refl) h

  server_keeps :
      (row : ℕ) (choice : ServerChoice) (w : Window) → P w → P (on_server_context_menu row choice w)
  unfolding on_server_context_menu
  server_keeps row Actions.connect w h = same w _ (kept refl refl refl refl refl refl) h
  server_keeps row Actions.remove w h = same w _ (kept refl refl refl refl refl refl) h
  server_keeps row Actions.neither w h = same w _ (kept refl refl refl refl refl refl) h

  select_keeps : (row : Option ℕ) (w : Window) → P w → P (on_transfer_selection_changed row w)
  unfolding on_transfer_selection_changed
  select_keeps none w h = same w _ (kept refl refl refl refl refl refl) h
  select_keeps (some row) w h = same w _ (kept refl refl refl refl refl refl) h

  panel_keeps : (e : PanelEvent) (w : Window) → P w → P (enabled (is_user e) (in_panel d e) w)
  panel_keeps e w h = elim (Bool-cases (is_user e)) [
    | inl u ↦ rw u (panels e w u h)
    | inr u ↦ rw u h
  ]

  pub input_keeps : (i : Input) (w : Window) → edits_password i ≡ false → P w → P (take_input d i w)
  unfolding take_input on_disconnect_clicked on_add_link on_update_servers clear_completed
      refresh_download_view on_table_context_menu in_panel
  input_keeps (Inputs.edit_host t) w u h = same w _ (kept refl refl refl refl refl refl) h
  input_keeps (Inputs.edit_password t) w u h = absurd (ground arith)
  input_keeps (Inputs.check_remember on) w u h = same w _ (kept refl refl refl refl refl refl) h
  input_keeps (Inputs.spin_port n) w u h =
      if_both P (leb 1 n && leb n 65535) (same w _ (kept refl refl refl refl refl refl) h) h
  input_keeps Inputs.press_connect w u h = if_both P w.connect_enabled (connects w h) h
  input_keeps Inputs.return_in_password w u h = connects w h
  input_keeps Inputs.press_disconnect w u h =
      if_both P w.disconnect_enabled (same w _ (kept refl refl refl refl refl refl) h) h
  input_keeps (Inputs.press_network b) w u h =
      if_both P w.connected (same w _ (kept refl refl refl refl refl refl) h) h
  input_keeps Inputs.press_clear_completed w u h =
      if_both P w.connected (same w _ (kept refl refl refl refl refl refl) h) h
  input_keeps Inputs.press_refresh_shared w u h =
      if_both P w.connected (same w _ (kept refl refl refl refl refl refl) h) h
  input_keeps (Inputs.edit_form flags numbers texts shares) w u h =
      if_both P w.connected (same w _ (kept refl refl refl refl refl refl) h) h
  input_keeps Inputs.press_apply w u h =
      if_both P w.connected (same w _ (kept refl refl refl refl refl refl) h) h
  input_keeps Inputs.press_reload w u h =
      if_both P w.connected (same w _ (kept refl refl refl refl refl refl) h) h
  input_keeps (Inputs.press_add_link answer) w u h =
      if_both P w.connected (ask_keeps Slots.add_link answer w h) h
  input_keeps (Inputs.press_update_servers answer) w u h =
      if_both P w.connected (ask_keeps Slots.server_update_from_url answer w h) h
  input_keeps (Inputs.press_add_server answer) w u h =
      if_both P w.connected (add_server_keeps answer w h) h
  input_keeps (Inputs.transfer_menu clicked selected choice) w u h =
      transfer_keeps (menu_hashes clicked selected w) choice w h
  input_keeps (Inputs.server_menu row choice) w u h = server_keeps row choice w h
  input_keeps (Inputs.select_transfer row) w u h = select_keeps row w h
  input_keeps (Inputs.in_search_panel e) w u h = panel_keeps e w h
