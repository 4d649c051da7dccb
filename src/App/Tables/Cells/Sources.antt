-- ===== src/App/Tables/Cells/Sources.antt =====
-- The cells and headers of app/sourcetablemodel.cpp.
use amule_remote_qt.Base.{ℕ, List, ◌∷◌, ◌++◌, if◌then◌else◌}
use amule_remote_qt.Ec.Bytes.{text}
use amule_remote_qt.Model.Types.{SourceClient}
use amule_remote_qt.Model.Figures.{human_bytes, human_rate}
use amule_remote_qt.Model.Labels.{state_label, origin_label}
use amule_remote_qt.Model.Address.{ip_string}
use amule_remote_qt.App.Tables.{is_empty}
use amule_remote_qt.App.Tables.Cells.{
  Screen, Role, display_role, user_role, alignment_role, progress_role, any_role, Variant, invalid,
  text_of, align_right, align_left, cell_at,
}

pub data SourceColumn : Type 0 where
  client_column address_column speed_column downloaded_column state_column origin_column
        other_column :
      SourceColumn

abbrev pub source_alignment : SourceColumn → Variant
source_alignment client_column = align_left
source_alignment address_column = align_left
source_alignment speed_column = align_right
source_alignment downloaded_column = align_right
source_alignment state_column = align_left
source_alignment origin_column = align_left
source_alignment other_column = align_left

abbrev pub source_text : Screen → SourceColumn → SourceClient → Variant
source_text f client_column s = text_of (if is_empty s.name then s.soft_ver else s.name)
source_text f address_column s = text_of (ip_string f.qt s ++ b':' ∷ f.qt.decimal s.user_port)
source_text f speed_column s = text_of (
    if f.figures.is_positive s.down_speed
    then human_rate f.qt f.figures (f.figures.whole s.down_speed)
    else text "—")
source_text f downloaded_column s = text_of (human_bytes f.qt f.figures s.downloaded)
source_text f state_column s = text_of (state_label f.tr s)
source_text f origin_column s = text_of (origin_label f.tr s)
source_text f other_column s = invalid

unfoldable pub source_cell : Screen → Role → SourceColumn → SourceClient → Variant
source_cell f display_role c s = source_text f c s
source_cell f user_role c s = invalid
source_cell f alignment_role c s = source_alignment c
source_cell f progress_role c s = invalid
source_cell f any_role c s = invalid

unfoldable pub source_data : Screen → Role → ℕ → SourceColumn → List SourceClient → Variant
source_data f role row c rows = cell_at (source_cell f role c) row rows

-- A horizontal header's text.
unfoldable pub source_header : Screen → SourceColumn → Variant
source_header f client_column = text_of (f.tr (text "Client"))
source_header f address_column = text_of (f.tr (text "Address"))
source_header f speed_column = text_of (f.tr (text "Speed"))
source_header f downloaded_column = text_of (f.tr (text "Downloaded"))
source_header f state_column = text_of (f.tr (text "State"))
source_header f origin_column = text_of (f.tr (text "Origin"))
source_header f other_column = invalid
