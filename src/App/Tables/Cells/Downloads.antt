-- ===== src/App/Tables/Cells/Downloads.antt =====
-- The cells and headers of app/downloadtablemodel.cpp.
use amule_remote_qt.Base.{ℕ, List, ◌++◌, ltb, if◌then◌else◌}
use amule_remote_qt.Ec.Bytes.{Text, text}
use amule_remote_qt.Model.Types.{Download}
use amule_remote_qt.Model.Figures.{human_rate, human_size_pair, progress}
use amule_remote_qt.Model.Labels.{status_label}
use amule_remote_qt.App.Tables.Cells.{
  Screen, Role, display_role, user_role, alignment_role, progress_role, any_role, Variant, invalid,
  text_of, number, float, align_right, align_left, cell_at,
}

pub data DownloadColumn : Type 0 where
  part_num name_column status_column progress_column size_column speed_column sources_column
        other_column :
      DownloadColumn

abbrev pub download_key : Screen → DownloadColumn → Download → Variant
download_key f part_num d = number d.part_met_id
download_key f name_column d = text_of d.name
download_key f status_column d = text_of (status_label f.tr d)
download_key f progress_column d = float (progress f.figures d)
download_key f size_column d = number d.size_full
download_key f speed_column d = number d.speed
download_key f sources_column d = number d.source_count
download_key f other_column d = invalid

abbrev pub download_alignment : DownloadColumn → Variant
download_alignment part_num = align_right
download_alignment size_column = align_right
download_alignment speed_column = align_right
download_alignment sources_column = align_right
download_alignment _ = align_left

-- `%1 (%2)` of two numbers.
abbrev pub counted : Screen → ℕ → ℕ → Text
counted f n m = f.qt.decimal n ++ (text " (" ++ (f.qt.decimal m ++ text ")"))

abbrev pub download_text : Screen → DownloadColumn → Download → Variant
download_text f part_num d =
    text_of (if ltb 0 d.part_met_id then f.qt.decimal d.part_met_id else text "—")
download_text f name_column d = text_of d.name
download_text f status_column d = text_of (status_label f.tr d)
download_text f progress_column d =
    text_of (f.figures.percent_text (progress f.figures d) ++ text "%")
download_text f size_column d = text_of (human_size_pair f.qt f.figures d.size_done d.size_full)
download_text f speed_column d =
    text_of (if ltb 0 d.speed then human_rate f.qt f.figures d.speed else text "—")
download_text f sources_column d = text_of (counted f d.source_count d.source_count_xfer)
download_text f other_column d = invalid

unfoldable pub download_cell : Screen → Role → DownloadColumn → Download → Variant
download_cell f display_role c d = download_text f c d
download_cell f user_role c d = download_key f c d
download_cell f alignment_role c d = download_alignment c
download_cell f progress_role c d = number (f.figures.percent_int (progress f.figures d))
download_cell f any_role c d = invalid

unfoldable pub download_data : Screen → Role → ℕ → DownloadColumn → List Download → Variant
download_data f r row c ds = cell_at (download_cell f r c) row ds

-- A horizontal header's text.
unfoldable pub download_header : Screen → DownloadColumn → Variant
download_header f part_num = text_of (f.tr (text "Part#"))
download_header f name_column = text_of (f.tr (text "Name"))
download_header f status_column = text_of (f.tr (text "Status"))
download_header f progress_column = text_of (f.tr (text "Progress"))
download_header f size_column = text_of (f.tr (text "Size"))
download_header f speed_column = text_of (f.tr (text "Speed"))
download_header f sources_column = text_of (f.tr (text "Sources"))
download_header f other_column = invalid
