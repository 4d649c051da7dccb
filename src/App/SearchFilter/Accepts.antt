-- ===== src/App/SearchFilter/Accepts.antt =====
-- `setSearchFilter` and `filterAcceptsRow` of app/searchfilterproxy.cpp.
use amule_remote_qt.Base.{◌≡◌, true, false, not, arith, ◌≤◌, ◌<◌, ◌⊎◌, ◌↔◌}
use amule_remote_qt.Model.Types.{SearchResult}
use amule_remote_qt.App.SearchFilter.{
  Matching, Proxy, SearchFilter, is_empty, expression, set_search_filter, within_bounds,
  name_matches, filter_accepts_row,
}

module _ (m : Matching) where
  -- Among the results within the bounds, a filter whose text is more than spaces and its negation
  -- accept every result exactly once.
  pub filter_accepts_row_negated :
      (f : SearchFilter) (p : Proxy) (r : SearchResult)
      → within_bounds m f r ≡ true
      → is_empty (m.trimmed f.text) ≡ false
      → filter_accepts_row m (set_search_filter m (record f { negate = not f.negate }) p) r
        ≡ not (filter_accepts_row m (set_search_filter m f p) r)
  unfolding filter_accepts_row set_search_filter name_matches within_bounds expression
  filter_accepts_row_negated f p r inside filled = ground arith

  -- A glob or an expression that is not valid filters like its plain text.
  pub filter_accepts_row_invalid :
      (f : SearchFilter) (p : Proxy) (r : SearchResult)
      → m.is_valid (expression m f) ≡ false
      → filter_accepts_row m (set_search_filter m f p) r
        ≡ filter_accepts_row m (set_search_filter m (record f { glob = false; regex = false }) p) r
  unfolding filter_accepts_row set_search_filter name_matches within_bounds expression
  filter_accepts_row_invalid f p r invalid = ground arith

  -- A result passes the bounds if it meets each one that is set; 0 sets none.
  pub within_bounds_iff :
      (f : SearchFilter) (r : SearchResult)
      → (within_bounds m f r ≡ true) ↔ (
          ((f.only_complete ≡ false) ⊎ (0 < r.complete_source_count))
          × ((f.min_sources ≡ 0) ⊎ (f.min_sources ≤ r.source_count))
          × ((f.max_sources ≡ 0) ⊎ (r.source_count ≤ f.max_sources)))
  unfolding within_bounds
  within_bounds_iff f r = (λ h. ground arith, λ h. ground arith)
