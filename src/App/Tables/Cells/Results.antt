-- ===== src/App/Tables/Cells/Results.antt =====
-- The cells and headers of app/searchresultmodel.cpp.
use amule_remote_qt.Base.{ℕ, List}
use amule_remote_qt.Ec.Bytes.{text}
use amule_remote_qt.Model.Types.{SearchResult}
use amule_remote_qt.Model.Figures.{human_bytes}
use amule_remote_qt.App.Tables.Cells.Downloads.{counted}
use amule_remote_qt.App.Tables.Cells.{
  Screen, Role, display_role, user_role, alignment_role, progress_role, any_role, Variant, invalid,
  text_of, number, align_right, align_left, cell_at,
}

pub data ResultColumn : Type 0 where
  name_column size_column sources_column other_column : ResultColumn

abbrev pub result_key : ResultColumn → SearchResult → Variant
result_key name_column r = text_of r.name
result_key size_column r = number r.size
result_key sources_column r = number r.source_count
result_key other_column r = invalid

abbrev pub result_alignment : ResultColumn → Variant
result_alignment name_column = align_left
result_alignment size_column = align_right
result_alignment sources_column = align_right
result_alignment other_column = align_left

abbrev pub result_text : Screen → ResultColumn → SearchResult → Variant
result_text f name_column r = text_of (r.name)
result_text f size_column r = text_of (human_bytes f.qt f.figures r.size)
result_text f sources_column r = text_of (counted f r.source_count r.complete_source_count)
result_text f other_column r = invalid

unfoldable pub result_cell : Screen → Role → ResultColumn → SearchResult → Variant
result_cell f display_role c r = result_text f c r
result_cell f user_role c r = result_key c r
result_cell f alignment_role c r = result_alignment c
result_cell f progress_role c r = invalid
result_cell f any_role c r = invalid

unfoldable pub result_data : Screen → Role → ℕ → ResultColumn → List SearchResult → Variant
result_data f role row c rows = cell_at (result_cell f role c) row rows

-- A horizontal header's text.
unfoldable pub result_header : Screen → ResultColumn → Variant
result_header f name_column = text_of (f.tr (text "Name"))
result_header f size_column = text_of (f.tr (text "Size"))
result_header f sources_column = text_of (f.tr (text "Sources (complete)"))
result_header f other_column = invalid
