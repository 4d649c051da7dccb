-- ===== src/App/MainWindow/Inputs.antt =====
-- Everything that the user can do to the window of app/mainwindow.cpp. The buttons are those of
-- buildUi and of the panels; a disabled one does nothing.
use amule_remote_qt.Base.{ℕ, Bool, false, true, Option, List, ◌&&◌, leb, if◌then◌else◌}
use amule_remote_qt.Ec.Bytes.{Text}
use amule_remote_qt.Worker.Slots
use amule_remote_qt.App.SearchPanel.Events
use amule_remote_qt.App.SearchPanel.Events.{PanelEvent}
use amule_remote_qt.App.PreferencesPanel.Form.{collect}
use amule_remote_qt.App.MainWindow.{Desktop, Window, post}
use amule_remote_qt.App.MainWindow.Connection.{on_connect_clicked, on_disconnect_clicked}
use amule_remote_qt.App.MainWindow.Actions.{
  NetworkButton, slot_of, TransferChoice, ServerChoice, on_table_context_menu,
  on_server_context_menu, on_transfer_selection_changed, clear_completed, in_panel, on_add_link,
  on_update_servers, on_add_server,
}

pub data Input : Type 0 where
  edit_host edit_password : Text → Input
  spin_port : ℕ → Input
  check_remember : Bool → Input
  press_connect return_in_password press_disconnect : Input
  press_network : NetworkButton → Input
  press_add_link press_update_servers : Option Text → Input
  press_add_server : Option (Text × Text) → Input
  press_clear_completed press_refresh_shared : Input
  transfer_menu : ℕ → List ℕ → TransferChoice → Input
  server_menu : ℕ → ServerChoice → Input
  select_transfer : Option ℕ → Input
  in_search_panel : PanelEvent → Input
  edit_form : List Bool → List ℕ → List Text → Option ℕ → Input
  press_apply press_reload : Input

-- An input of the search panel is none of the worker's signals.
abbrev pub is_user : PanelEvent → Bool
is_user (Events.results_arrive rs) = false
is_user (Events.progress_arrives n) = false
is_user (Events.searching_arrives b) = false
is_user _ = true

abbrev pub enabled : Bool → (Window → Window) → Window → Window
enabled on f w = if on then f w else w

unfoldable pub take_input : Desktop → Input → Window → Window
take_input d (edit_host t) w = record w { host = t }
take_input d (edit_password t) w = record w { password = t }
take_input d (spin_port n) w = if leb 1 n && leb n 65535 then record w { port = n } else w
take_input d (check_remember on) w = record w { remember = on }
take_input d press_connect w = enabled w.connect_enabled (on_connect_clicked d) w
take_input d return_in_password w = on_connect_clicked d w
take_input d press_disconnect w = enabled w.disconnect_enabled on_disconnect_clicked w
take_input d (press_network b) w = enabled w.connected (post (slot_of b)) w
take_input d (press_add_link answer) w = enabled w.connected (on_add_link d answer) w
take_input d (press_update_servers answer) w = enabled w.connected (on_update_servers d answer) w
take_input d (press_add_server answer) w = enabled w.connected (on_add_server d answer) w
take_input d press_clear_completed w = enabled w.connected clear_completed w
take_input d press_refresh_shared w = enabled w.connected (post Slots.reload_shared) w
take_input d (transfer_menu clicked selected choice) w =
    on_table_context_menu clicked selected choice w
take_input d (server_menu row choice) w = on_server_context_menu row choice w
take_input d (select_transfer row) w = on_transfer_selection_changed row w
take_input d (in_search_panel e) w = enabled (is_user e) (in_panel d e) w
take_input d (edit_form flags numbers texts shares) w =
    enabled w.connected
      (λ v. record v {
        form = record v.form {
          flags = flags;
          numbers = numbers;
          texts = texts;
          can_see_shares = shares;
        };
      })
      w
take_input d press_apply w = enabled w.connected (post (Slots.apply_prefs (collect w.form))) w
take_input d press_reload w = enabled w.connected (post Slots.fetch_prefs) w
