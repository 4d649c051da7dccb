-- ===== src/App/Tables/Cells/Shared.antt =====
-- The cells and headers of app/sharedfilemodel.cpp.
use amule_remote_qt.Base.{ℕ, List}
use amule_remote_qt.Ec.Bytes.{text}
use amule_remote_qt.Model.Types.{SharedFile}
use amule_remote_qt.Model.Figures.{human_bytes}
use amule_remote_qt.App.Tables.Cells.{
  Screen, Role, display_role, user_role, alignment_role, progress_role, any_role, Variant, invalid,
  text_of, number, align_right, align_left, cell_at,
}

pub data SharedFileColumn : Type 0 where
  name_column size_column requests_column accepted_column transferred_column sources_column
        other_column :
      SharedFileColumn

abbrev pub shared_key : SharedFileColumn → SharedFile → Variant
shared_key name_column s = invalid
shared_key size_column s = number s.size
shared_key requests_column s = number s.request_count
shared_key accepted_column s = number s.accept_count
shared_key transferred_column s = number s.transferred
shared_key sources_column s = number s.complete_sources
shared_key other_column s = invalid

abbrev pub shared_alignment : SharedFileColumn → Variant
shared_alignment name_column = align_left
shared_alignment size_column = align_right
shared_alignment requests_column = align_right
shared_alignment accepted_column = align_right
shared_alignment transferred_column = align_right
shared_alignment sources_column = align_right
shared_alignment other_column = align_right

abbrev pub shared_text : Screen → SharedFileColumn → SharedFile → Variant
shared_text f name_column s = text_of (s.name)
shared_text f size_column s = text_of (human_bytes f.qt f.figures s.size)
shared_text f requests_column s = text_of (f.qt.decimal s.request_count)
shared_text f accepted_column s = text_of (f.qt.decimal s.accept_count)
shared_text f transferred_column s = text_of (human_bytes f.qt f.figures s.transferred)
shared_text f sources_column s = text_of (f.qt.decimal s.complete_sources)
shared_text f other_column s = invalid

unfoldable pub shared_cell : Screen → Role → SharedFileColumn → SharedFile → Variant
shared_cell f display_role c s = shared_text f c s
shared_cell f user_role c s = shared_key c s
shared_cell f alignment_role c s = shared_alignment c
shared_cell f progress_role c s = invalid
shared_cell f any_role c s = invalid

unfoldable pub shared_data : Screen → Role → ℕ → SharedFileColumn → List SharedFile → Variant
shared_data f role row c rows = cell_at (shared_cell f role c) row rows

-- A horizontal header's text.
unfoldable pub shared_header : Screen → SharedFileColumn → Variant
shared_header f name_column = text_of (f.tr (text "Name"))
shared_header f size_column = text_of (f.tr (text "Size"))
shared_header f requests_column = text_of (f.tr (text "Requests"))
shared_header f accepted_column = text_of (f.tr (text "Accepted"))
shared_header f transferred_column = text_of (f.tr (text "Transferred"))
shared_header f sources_column = text_of (f.tr (text "Sources"))
shared_header f other_column = invalid
