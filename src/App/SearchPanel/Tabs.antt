-- ===== src/App/SearchPanel/Tabs.antt =====
-- The tabs of app/searchpanel.cpp, their filters, their anchored rows and the button "Download".
use amule_remote_qt.Base.{
  ℕ, zero, suc, ◌+◌, Bool, true, false, not, ◌&&◌, ◌||◌, Option, none, some, List, [], ◌∷◌, ◌++◌,
  ◌==◌, if◌then◌else◌, length,
}
use amule_remote_qt.Ec.Bytes.{Text, text}
use amule_remote_qt.Model.Types.{SearchResult}
use amule_remote_qt.App.SearchFilter.{SearchFilter, Proxy, set_search_filter, set_anchored}
use amule_remote_qt.App.Tables.{data_changed, reset, is_empty, set_results}
use amule_remote_qt.App.SearchPanel.{
  Toolkit, Controls, ResultTab, SearchPanel, new_controls, send, stop_requested,
}

-- Comparison of two views, either of which may be null.
abbrev pub same_view : Option ℕ → Option ℕ → Bool
same_view none none = true
same_view (some a) (some b) = a == b
same_view _ _ = false

-- The view of the tab at an index; null past the last.
abbrev pub view_at : ℕ → List ResultTab → Option ℕ
view_at n [] = none
view_at zero (t ∷ ts) = some t.view
view_at (suc n) (t ∷ ts) = view_at n ts

abbrev pub remove_at {ℓ} : {A : Type ℓ} → ℕ → List A → List A
remove_at n [] = []
remove_at zero (x ∷ xs) = xs
remove_at (suc n) (x ∷ xs) = x ∷ remove_at n xs

-- The tab of a view, where there is one, is changed.
abbrev pub change_tab : Option ℕ → (ResultTab → ResultTab) → List ResultTab → List ResultTab
change_tab view f [] = []
change_tab view f (t ∷ ts) =
    (if same_view view (some t.view) then f t else t) ∷ change_tab view f ts

-- The tab of a view as a list of one, or of none.
abbrev pub tabs_of : Option ℕ → List ResultTab → List ResultTab
tabs_of view [] = []
tabs_of view (t ∷ ts) =
    let rest = tabs_of view ts in if same_view view (some t.view) then t ∷ [] else rest

abbrev pub is_selected : List ResultTab → Bool
is_selected [] = false
is_selected (t ∷ ts) = not (is_empty t.selected)

unfoldable pub current_filter : Controls → SearchFilter
current_filter c = record {
  text = c.filter_text;
  negate = c.negate;
  glob = c.glob;
  regex = c.regex;
  only_complete = c.only_complete;
  min_sources = c.min_sources;
  max_sources = c.max_sources;
}

unfoldable pub update_download_enabled : SearchPanel → SearchPanel
update_download_enabled p = record p {
  download_enabled =
      (not (same_view p.current none) && same_view p.current p.live)
      && is_selected (tabs_of p.current p.tabs);
}

-- `updateAnchor`; a null view changes nothing.
unfoldable pub update_anchor : Option ℕ → SearchPanel → SearchPanel
update_anchor view p =
    let enabled = p.controls.anchor in
    record p {
      tabs =
          change_tab view
            (λ t. record t {
              proxy = set_anchored (if enabled then t.selected else []) enabled t.proxy;
            })
            p.tabs;
    }

-- What `SearchResultModel::setResults` does to the view: a reset of the model clears the selection
-- without a signal.
unfoldable pub refill : List SearchResult → ResultTab → ResultTab
refill rs t =
    let (rows, change) = set_results rs t.results in
    record t { results = rows; selected = elim change [ data_changed ↦ t.selected | reset ↦ [] ] }

-- A proxy as it is constructed.
abbrev pub new_proxy : Proxy
new_proxy = record {
  filter = current_filter new_controls;
  pattern = [];
  use_pattern = false;
  anchored = [];
  anchor_enabled = false;
}

module _ (q : Toolkit) where
  unfoldable pub apply_filter_to_current : SearchPanel → SearchPanel
  apply_filter_to_current p = record p {
    tabs =
        change_tab p.current
          (λ t. record t {
            proxy = set_search_filter q.matching (current_filter p.controls) t.proxy;
          })
          p.tabs;
  }

  unfoldable pub on_current_tab_changed : SearchPanel → SearchPanel
  on_current_tab_changed p =
      update_anchor p.current (update_download_enabled (apply_filter_to_current p))

  -- A tab is added and shown; its label is also the property "baseLabel". `liveView_` is set after
  -- that.
  unfoldable pub make_result_tab : Text → SearchPanel → SearchPanel
  make_result_tab label p =
      let tab : ResultTab = record {
        view = p.next_view;
        base_label = label;
        title = label;
        results = [];
        proxy = set_search_filter q.matching (current_filter p.controls) (record {
          filter = current_filter new_controls;
          pattern = [];
          use_pattern = false;
          anchored = [];
          anchor_enabled = false;
        });
        selected = [];
      } in
      on_current_tab_changed (record p {
        tabs = p.tabs ++ tab ∷ [];
        next_view = p.next_view + 1;
        current = some p.next_view;
      })

  unfoldable pub set_panel_results : List SearchResult → SearchPanel → SearchPanel
  set_panel_results rs p = if same_view p.live none then p else record p {
    tabs =
        change_tab p.live
          (λ t. record (refill rs t) {
            title = q.arg (q.arg (text "%1 (%2)") t.base_label) (q.decimal (length rs));
          })
          p.tabs;
  }

  -- The search ends with its tab. A null page is the null live view, as it is in the code.
  unfoldable pub stop_live : Option ℕ → SearchPanel → SearchPanel
  stop_live page p =
      if same_view page p.live then send stop_requested (record p { live = none }) else p

  -- QTabWidget::removeTab: the widget then shows the tab at `shown` among those left.
  unfoldable pub remove_tab : ℕ → ℕ → SearchPanel → SearchPanel
  remove_tab index shown p =
      let left = remove_at index p.tabs in record p { tabs = left; current = view_at shown left }

  -- The signal `currentChanged`, which may come (`told`) though the page is the one shown `before`.
  unfoldable pub show_left : Bool → Option ℕ → SearchPanel → SearchPanel
  show_left told before p =
      if told || not (same_view p.current before) then on_current_tab_changed p else p

  unfoldable pub on_tab_close : ℕ → ℕ → Bool → SearchPanel → SearchPanel
  on_tab_close index shown told p =
      update_download_enabled
        (show_left told p.current (remove_tab index shown (stop_live (view_at index p.tabs) p)))

  unfoldable pub show_tab : ℕ → SearchPanel → SearchPanel
  show_tab index p =
      let view = view_at index p.tabs in
      if same_view view none || same_view view p.current
      then p
      else on_current_tab_changed (record p { current = view })
