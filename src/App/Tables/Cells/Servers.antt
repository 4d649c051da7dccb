-- ===== src/App/Tables/Cells/Servers.antt =====
-- The cells and headers of app/servertablemodel.cpp.
use amule_remote_qt.Base.{ℕ, List, ◌∷◌, ◌++◌, if◌then◌else◌}
use amule_remote_qt.Ec.Bytes.{text}
use amule_remote_qt.Model.Types.{Server}
use amule_remote_qt.Model.Figures.{human_count}
use amule_remote_qt.Model.Labels.{priority_label}
use amule_remote_qt.Model.Address.{address}
use amule_remote_qt.App.Tables.{is_empty}
use amule_remote_qt.App.Tables.Cells.{
  Screen, Role, display_role, user_role, alignment_role, progress_role, any_role, Variant, invalid,
  text_of, number, align_right, align_left, cell_at,
}

pub data ServerColumn : Type 0 where
  name_column address_column users_column files_column ping_column priority_column other_column :
      ServerColumn

abbrev pub server_key : ServerColumn → Server → Variant
server_key name_column s = invalid
server_key address_column s = invalid
server_key users_column s = number s.users
server_key files_column s = number s.files
server_key ping_column s = number s.ping
server_key priority_column s = invalid
server_key other_column s = invalid

abbrev pub server_alignment : ServerColumn → Variant
server_alignment name_column = align_left
server_alignment address_column = align_left
server_alignment users_column = align_right
server_alignment files_column = align_right
server_alignment ping_column = align_right
server_alignment priority_column = align_left
server_alignment other_column = align_left

abbrev pub server_text : Screen → ServerColumn → Server → Variant
server_text f name_column s = text_of (if is_empty s.name then address f.qt s else s.name)
server_text f address_column s = text_of (address f.qt s ++ b':' ∷ f.qt.decimal s.port)
server_text f users_column s = text_of (human_count f.qt f.figures s.users)
server_text f files_column s = text_of (human_count f.qt f.figures s.files)
server_text f ping_column s = text_of (f.arg (f.tr (text "%1 ms")) (f.qt.decimal s.ping))
server_text f priority_column s = text_of (priority_label f.tr s)
server_text f other_column s = invalid

unfoldable pub server_cell : Screen → Role → ServerColumn → Server → Variant
server_cell f display_role c s = server_text f c s
server_cell f user_role c s = server_key c s
server_cell f alignment_role c s = server_alignment c
server_cell f progress_role c s = invalid
server_cell f any_role c s = invalid

unfoldable pub server_data : Screen → Role → ℕ → ServerColumn → List Server → Variant
server_data f role row c rows = cell_at (server_cell f role c) row rows

-- A horizontal header's text.
unfoldable pub server_header : Screen → ServerColumn → Variant
server_header f name_column = text_of (f.tr (text "Name"))
server_header f address_column = text_of (f.tr (text "Address"))
server_header f users_column = text_of (f.tr (text "Users"))
server_header f files_column = text_of (f.tr (text "Files"))
server_header f ping_column = text_of (f.tr (text "Ping"))
server_header f priority_column = text_of (f.tr (text "Priority"))
server_header f other_column = invalid
