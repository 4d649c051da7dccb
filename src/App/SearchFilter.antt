-- ===== src/App/SearchFilter.antt =====
-- app/searchfilterproxy.h and app/searchfilterproxy.cpp: the filter and the order of search
-- results.
pub mod Glob
pub mod Anchors
pub mod Accepts
use amule_remote_qt.Base.{
  ℕ, Bool, true, false, not, ◌&&◌, ◌||◌, List, [], ◌∷◌, ◌++◌, ltb, ◌==◌, if◌then◌else◌, length,
}
use amule_remote_qt.Ec.Bytes.{Text, text}
use amule_remote_qt.Model.Types.{SearchResult}

pub record SearchFilter : Type 0 where
  pub text : Text
  pub negate : Bool
  pub glob : Bool
  pub regex : Bool
  pub only_complete : Bool
  pub min_sources : ℕ
  pub max_sources : ℕ

-- What the filter takes from Qt: QString::trimmed, QString::contains and QRegularExpression's
-- isValid and hasMatch, the last three case-insensitive, with the expression or the text first.
pub record Matching : Type 0 where
  pub trimmed : Text → Text
  pub holds : Text → Text → Bool
  pub is_valid : Text → Bool
  pub has_match : Text → Text → Bool

-- The members of SearchResultFilterProxy; `pattern` is the expression of `pattern_`.
pub record Proxy : Type 0 where
  pub filter : SearchFilter
  pub pattern : Text
  pub use_pattern : Bool
  pub anchored : List ℕ
  pub anchor_enabled : Bool

abbrev pub one_of : List ℕ → ℕ → Bool
one_of [] c = false
one_of (d ∷ ds) c = d == c || one_of ds c

-- The cases of the switch that are escaped.
abbrev pub escaped : Text
escaped = text ".+()|[]{}^$\\"

-- What the loop of `globToRegex` appends for a character.
unfoldable pub glob_char : ℕ → Text
glob_char c =
    if c == b'*'
    then b'.' ∷ b'*' ∷ []
    else if c == b'?'
    then b'.' ∷ []
    else if one_of escaped c
    then b'\\' ∷ c ∷ []
    else c ∷ []

unfoldable pub glob_body : Text → Text
glob_body [] = []
glob_body (c ∷ cs) = glob_char c ++ glob_body cs

unfoldable pub glob_to_regex : Text → Text
glob_to_regex glob = b'^' ∷ (glob_body glob ++ b'$' ∷ [])

abbrev pub is_empty : Text → Bool
is_empty s = length s == 0

-- The views' sort orders.
pub data SortOrder : Type 0 where
  ascending descending : SortOrder

-- `sortOrder() == Qt::AscendingOrder ? leftFirst : !leftFirst`.
abbrev pub by_order : SortOrder → Bool → Bool
by_order ascending left_first = left_first
by_order descending left_first = not left_first

unfoldable pub set_anchored : List ℕ → Bool → Proxy → Proxy
set_anchored rows enabled p = record p { anchored = rows; anchor_enabled = enabled }

-- `lessThan` on source rows; `less` is QSortFilterProxyModel's own.
unfoldable pub less_than : Proxy → SortOrder → (ℕ → ℕ → Bool) → ℕ → ℕ → Bool
less_than p order less l r =
    let left = one_of p.anchored l in
    let right = one_of p.anchored r in
    if p.anchor_enabled && not (left && right || not left && not right)
    then by_order order left
    else less l r

module _ (m : Matching) where
  unfoldable pub expression : SearchFilter → Text
  expression f = let t = m.trimmed f.text in if f.regex then t else glob_to_regex t

  unfoldable pub set_search_filter : SearchFilter → Proxy → Proxy
  set_search_filter f p =
      if not (is_empty (m.trimmed f.text)) && (f.regex || f.glob)
      then record p { filter = f; pattern = expression f; use_pattern = m.is_valid (expression f) }
      else record p { filter = f; use_pattern = false }

  -- The bounds that `filterAcceptsRow` tests first.
  unfoldable pub within_bounds : SearchFilter → SearchResult → Bool
  within_bounds f r =
      if f.only_complete && r.complete_source_count == 0
      then false
      else if ltb 0 f.min_sources && ltb r.source_count f.min_sources
      then false
      else not (ltb 0 f.max_sources && ltb f.max_sources r.source_count)

  unfoldable pub name_matches : Proxy → SearchResult → Bool
  name_matches p r =
      let matched =
        if p.use_pattern
        then m.has_match p.pattern r.name
        else m.holds (m.trimmed p.filter.text) r.name in
      if p.filter.negate then not matched else matched

  -- `filterAcceptsRow` on the row's result.
  unfoldable pub filter_accepts_row : Proxy → SearchResult → Bool
  filter_accepts_row p r =
      if within_bounds p.filter r
      then (if is_empty (m.trimmed p.filter.text) then true else name_matches p r)
      else false
