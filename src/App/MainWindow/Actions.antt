-- ===== src/App/MainWindow/Actions.antt =====
-- What the user can do in app/mainwindow.cpp. A button of `connectedWidgets_` does nothing while it
-- is disabled.
use amule_remote_qt.Base.{ℕ, Bool, Option, none, some, List, [], ◌∷◌, ◌++◌, if◌then◌else◌}
use amule_remote_qt.Codes.Prio
use amule_remote_qt.Ec.Bytes.{Text}
use amule_remote_qt.Ec.Tag.{Hash16}
use amule_remote_qt.Worker.Slots
use amule_remote_qt.Worker.Slots.{Command}
use amule_remote_qt.App.SearchFilter.{is_empty}
use amule_remote_qt.App.Tables.{
  each, download_hash_at, download_ecid_at, server_ip_at, server_port_at, set_file_ecid,
}
use amule_remote_qt.App.Transfers.{clear_retained, downloads_deleted}
use amule_remote_qt.App.SearchPanel.{
  PanelSignal, search_requested, stop_requested, download_requested,
}
use amule_remote_qt.App.SearchPanel.Events.{PanelEvent, panel_step}
use amule_remote_qt.App.MainWindow.{Desktop, Window, post}
use amule_remote_qt.App.MainWindow.Signals.{refresh_download_view}

-- The buttons that `cmdButton` makes.
pub data NetworkButton : Type 0 where
  connect_networks disconnect_networks start_kad stop_kad : NetworkButton
  connect_server disconnect_server : NetworkButton

unfoldable pub slot_of : NetworkButton → Command
slot_of connect_networks = Slots.connect_networks
slot_of disconnect_networks = Slots.disconnect_networks
slot_of start_kad = Slots.start_kad
slot_of stop_kad = Slots.stop_kad
slot_of connect_server = Slots.server_connect_any
slot_of disconnect_server = Slots.server_disconnect

-- What the menu of a download is left with; `delete` has the answer to the question.
pub data TransferChoice : Type 0 where
  pause resume stop : TransferChoice
  low normal high auto : TransferChoice
  delete : Bool → TransferChoice
  dismissed : TransferChoice

pub data ServerChoice : Type 0 where
  connect remove neither : ServerChoice

abbrev pub post_all : List Command → Window → Window
post_all cs w = record w { queue = w.queue ++ cs }

-- The hashes that the menu acts on: the selected rows', or that of the row under the cursor.
unfoldable pub menu_hashes : ℕ → List ℕ → Window → List Hash16
menu_hashes clicked [] w = download_hash_at clicked w.downloads ∷ []
menu_hashes clicked (row ∷ rows) w = each (λ r. download_hash_at r w.downloads) (row ∷ rows)

-- Deleting also drops the retained downloads of those hashes.
unfoldable pub delete_downloads : List Hash16 → Window → Window
delete_downloads hs w =
    refresh_download_view
      (record (post_all (each Slots.remove hs) w) { transfers = downloads_deleted hs w.transfers })

abbrev pub transfer_action : List Hash16 → TransferChoice → Window → Window
transfer_action hs pause w = post_all (each Slots.pause hs) w
transfer_action hs resume w = post_all (each Slots.resume hs) w
transfer_action hs stop w = post_all (each Slots.stop hs) w
transfer_action hs low w = post_all (each (λ h. Slots.set_priority h Prio.low) hs) w
transfer_action hs normal w = post_all (each (λ h. Slots.set_priority h Prio.normal) hs) w
transfer_action hs high w = post_all (each (λ h. Slots.set_priority h Prio.high) hs) w
transfer_action hs auto w = post_all (each (λ h. Slots.set_priority h Prio.auto) hs) w
transfer_action hs (delete sure) w = if sure then delete_downloads hs w else w
transfer_action hs dismissed w = w

unfoldable pub on_table_context_menu : ℕ → List ℕ → TransferChoice → Window → Window
on_table_context_menu clicked selected choice w =
    transfer_action (menu_hashes clicked selected w) choice w

unfoldable pub on_server_context_menu : ℕ → ServerChoice → Window → Window
on_server_context_menu row connect w =
    post (Slots.server_connect (server_ip_at row w.servers) (server_port_at row w.servers)) w
on_server_context_menu row remove w =
    post (Slots.server_remove (server_ip_at row w.servers) (server_port_at row w.servers)) w
on_server_context_menu row neither w = w

-- The current row, or none.
unfoldable pub on_transfer_selection_changed : Option ℕ → Window → Window
on_transfer_selection_changed none w = record w { sources = set_file_ecid 0 w.sources }
on_transfer_selection_changed (some row) w = record w {
  sources = set_file_ecid (download_ecid_at row w.downloads) w.sources;
}

unfoldable pub clear_completed : Window → Window
clear_completed w =
    post Slots.clear_completed
      (refresh_download_view (record w { transfers = clear_retained w.transfers }))

-- What `wireWorker` makes of the panel's signals.
unfoldable pub command_of : PanelSignal → Command
command_of (search_requested params) = Slots.start_search params
command_of stop_requested = Slots.stop_search
command_of (download_requested h) = Slots.download_result h

module _ (d : Desktop) where
  -- The panel's signals are taken as they come, so that its list of them starts and ends empty.
  unfoldable pub in_panel : PanelEvent → Window → Window
  in_panel e w =
      let p = panel_step d.toolkit e w.panel in
      post_all (each command_of p.emitted) (record w { panel = record p { emitted = [] } })

  -- A text that a dialog asks for is trimmed, and an empty one ignored; `none` is a cancelled dialog.
  abbrev pub ask : (Text → Command) → Option Text → Window → Window
  ask command none w = w
  ask command (some answer) w =
      let given = d.toolkit.matching.trimmed answer in
      if is_empty given then w else post (command given) w

  unfoldable pub on_add_link : Option Text → Window → Window
  on_add_link = ask Slots.add_link

  unfoldable pub on_update_servers : Option Text → Window → Window
  on_update_servers = ask Slots.server_update_from_url

  -- AddServerDialog::serverName and AddServerDialog::address trim what is typed; `none` where the
  -- dialog is not accepted.
  unfoldable pub on_add_server : Option (Text × Text) → Window → Window
  on_add_server none w = w
  on_add_server (some (name, address)) w =
      let trimmed = d.toolkit.matching.trimmed in
      if is_empty (trimmed address)
      then w
      else post (Slots.server_add (trimmed name) (trimmed address)) w
