-- ===== src/App/SearchPanel.antt =====
-- app/searchpanel.h and app/searchpanel.cpp: the search tab's controls, its tabs of results and its
-- saved searches.
pub mod Tabs
pub mod Downloads
pub mod Choices
pub mod Slots
pub mod Events
pub mod Core
pub mod Views
pub mod Invariant
pub mod Actions
pub mod Refilters
pub mod Histories
pub mod Filtered
pub mod SavedMap
pub mod Requested
pub mod Written
pub mod Restored
pub mod Live
use amule_remote_qt.Base.{
  ℕ, zero, suc, ◌+◌, ◌-◌, ◌%◌, ◌^◌, Bool, true, false, not, ◌&&◌, ◌||◌, Option, none, some, List,
  [], ◌∷◌, ◌++◌, leb, ltb, ◌==◌, if◌then◌else◌, length,
}
use amule_remote_qt.Ec.Bytes.{Bytes, Text, text}
use amule_remote_qt.Ec.Tag.{Hash16}
use amule_remote_qt.Model.Types.{SearchKind, global, kad, local, SearchParams, SearchResult}
use amule_remote_qt.App.SearchFilter.{
  SearchFilter, Matching, Proxy, set_search_filter, set_anchored,
}
use amule_remote_qt.App.SavedSearches.{SavedSearch, Format}
use amule_remote_qt.App.Tables.{Change, data_changed, reset, is_empty, at_row, set_results}

-- What the panel takes from Qt: the matching of its filters, the file of saved searches,
-- QString::arg with a text, and QString::number.
pub record Toolkit : Type 0 where
  pub matching : Matching
  pub format : Format
  pub arg : Text → Text → Text
  pub decimal : ℕ → Text

-- What the two rows of controls show.
pub record Controls : Type 0 where
  pub query : Text
  pub kind_index : ℕ
  pub type_index : ℕ
  pub filter_text : Text
  pub negate : Bool
  pub glob : Bool
  pub regex : Bool
  pub only_complete : Bool
  pub anchor : Bool
  pub min_sources : ℕ
  pub max_sources : ℕ

-- A view of results with its model, its proxy and its selection. `view` tells the views apart;
-- `selected` has the selection's rows as the model counts them.
pub record ResultTab : Type 0 where
  pub view : ℕ
  pub base_label : Text
  pub title : Text
  pub results : List SearchResult
  pub proxy : Proxy
  pub selected : List ℕ

-- The panel's signals.
pub data PanelSignal : Type 0 where
  search_requested : SearchParams → PanelSignal
  stop_requested : PanelSignal
  download_requested : Hash16 → PanelSignal

-- `live` is `liveView_`, and `liveModel_` with it; `stored` is the file of saved searches;
-- `saved_names` and `saved_index` are the items and the index of `savedCombo_`, and `saved_enabled`
-- is whether the buttons "Load" and "Delete" are enabled; `emitted` has the signals so far.
pub record SearchPanel : Type 0 where
  pub controls : Controls
  pub tabs : List ResultTab
  pub next_view : ℕ
  pub current : Option ℕ
  pub live : Option ℕ
  pub download_enabled : Bool
  pub progress : ℕ
  pub progress_visible : Bool
  pub saved : List SavedSearch
  pub stored : Bytes
  pub saved_names : List Text
  pub saved_index : Option ℕ
  pub saved_enabled : Bool
  pub emitted : List PanelSignal

abbrev pub send : PanelSignal → SearchPanel → SearchPanel
send signal p = record p { emitted = p.emitted ++ signal ∷ [] }

-- The data of the items of `networkCombo_` and of `typeCombo_`.
abbrev pub network_data : List SearchKind
network_data = global ∷ (kad ∷ (local ∷ []))

abbrev pub type_data : List Text
type_data =
    []
    ∷ (text "Audio"
        ∷ (text "Video" ∷ (text "Image" ∷ (text "Doc" ∷ (text "Pro" ∷ (text "Arc" ∷ []))))))

-- The range of `minSrcSpin_` and `maxSrcSpin_`.
abbrev pub spin_maximum : ℕ
spin_maximum = 1_000_000

-- The controls as they are built.
abbrev pub new_controls : Controls
new_controls = record {
  query = [];
  kind_index = 0;
  type_index = 0;
  filter_text = [];
  negate = false;
  glob = false;
  regex = false;
  only_complete = false;
  anchor = false;
  min_sources = 0;
  max_sources = 0;
}
