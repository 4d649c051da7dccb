-- ===== src/App/Tables.antt =====
-- app/downloadtablemodel.cpp, app/searchresultmodel.cpp, app/servertablemodel.cpp,
-- app/sharedfilemodel.cpp and app/sourcetablemodel.cpp: the rows of the tables and their refresh.
-- An update gives the rows and the signal for the view.
pub mod Cells
pub mod Layout
pub mod Visible
use amule_remote_qt.Base.{
  ℕ, zero, suc, Bool, true, false, not, ◌&&◌, List, [], ◌∷◌, ◌++◌, ◌==◌, if◌then◌else◌, replicate,
}
use amule_remote_qt.Ec.Bytes.{Bytes}
use amule_remote_qt.Ec.Tag.{Hash16}
use amule_remote_qt.Model.Types.{
  Download, SearchResult, new_search_result, Server, SharedFile, SourceClient,
}

-- `dataChanged` over all rows, or a reset, which clears the view's selection.
pub data Change : Type 0 where
  data_changed reset : Change

abbrev pub bytes_equal : Bytes → Bytes → Bool
bytes_equal [] [] = true
bytes_equal (b ∷ bs) (c ∷ cs) = b == c && bytes_equal bs cs
bytes_equal _ _ = false

abbrev pub is_empty {ℓ} : {A : Type ℓ} → List A → Bool
is_empty [] = true
is_empty (x ∷ xs) = false

-- The same size, and `std::equal` with the test.
unfoldable pub same_layout : {A : Type 0} → (A → A → Bool) → List A → List A → Bool
same_layout same [] [] = true
same_layout same (a ∷ xs) (b ∷ bs) = same a b && same_layout same xs bs
same_layout same _ _ = false

unfoldable pub set_rows : {A : Type 0} → (A → A → Bool) → List A → List A → List A × Change
set_rows same next rows =
    (next, if same_layout same next rows && not (is_empty next) then data_changed else reset)

unfoldable pub set_downloads : List Download → List Download → List Download × Change
set_downloads = set_rows (λ a b. bytes_equal a.hash b.hash)

unfoldable pub set_results : List SearchResult → List SearchResult → List SearchResult × Change
set_results = set_rows (λ a b. bytes_equal a.hash b.hash)

unfoldable pub set_servers : List Server → List Server → List Server × Change
set_servers = set_rows (λ a b. bytes_equal a.ip b.ip && a.port == b.port)

unfoldable pub set_files : List SharedFile → List SharedFile → List SharedFile × Change
set_files = set_rows (λ a b. bytes_equal a.hash b.hash)

-- A row's item, or what stands for it past the last row; a row below 0 is past it as well.
abbrev pub at_row : {A : Type 0} → A → ℕ → List A → A
at_row other n [] = other
at_row other zero (x ∷ xs) = x
at_row other (suc n) (x ∷ xs) = at_row other n xs

abbrev pub each {ℓ κ} : {A : Type ℓ} {B : Type κ} → (A → B) → List A → List B
each f [] = []
each f (x ∷ xs) = f x ∷ each f xs

unfoldable pub download_hash_at : ℕ → List Download → Hash16
download_hash_at row ds = at_row (replicate 16 0) row (each (λ d. d.hash) ds)

unfoldable pub download_ecid_at : ℕ → List Download → ℕ
download_ecid_at row ds = at_row 0 row (each (λ d. d.ecid) ds)

unfoldable pub result_at : ℕ → List SearchResult → SearchResult
result_at row rs = at_row new_search_result row rs

unfoldable pub result_hash_at : ℕ → List SearchResult → Hash16
result_hash_at row rs = at_row (replicate 16 0) row (each (λ r. r.hash) rs)

unfoldable pub server_ip_at : ℕ → List Server → Bytes
server_ip_at row ss = at_row (replicate 4 0) row (each (λ s. s.ip) ss)

unfoldable pub server_port_at : ℕ → List Server → ℕ
server_port_at row ss = at_row 0 row (each (λ s. s.port) ss)

-- The members of SourceTableModel, and the signals so far, the latest first.
pub record SourceTable : Type 0 where
  pub all : List SourceClient
  pub visible : List SourceClient
  pub file_ecid : ℕ
  pub changes : List Change

abbrev pub new_source_table : SourceTable
new_source_table = record { all = []; visible = []; file_ecid = 0; changes = [] }

unfoldable pub of_file : ℕ → List SourceClient → List SourceClient
of_file ecid [] = []
of_file ecid (c ∷ cs) = if c.file_ecid == ecid then c ∷ of_file ecid cs else of_file ecid cs

unfoldable pub listed : ℕ → List SourceClient → List SourceClient
listed ecid cs = if ecid == 0 then [] else of_file ecid cs

unfoldable pub rebuild : SourceTable → SourceTable
rebuild t =
    let (rows, change) = set_rows (λ a b. a.id == b.id) (listed t.file_ecid t.all) t.visible in
    record t { visible = rows; changes = change ∷ t.changes }

unfoldable pub set_sources : List SourceClient → SourceTable → SourceTable
set_sources cs t = rebuild (record t { all = cs })

unfoldable pub set_file_ecid : ℕ → SourceTable → SourceTable
set_file_ecid ecid t = if t.file_ecid == ecid then t else rebuild (record t { file_ecid = ecid })
