-- ===== src/App/SearchPanel/Choices.antt =====
-- The controls of app/searchpanel.cpp and the saved searches, as they are read and written.
use amule_remote_qt.Base.{
  ℕ, zero, suc, ◌-◌, ◌^◌, Bool, true, false, not, Option, none, some, List, [], ◌∷◌, leb, ltb, ◌==◌,
  if◌then◌else◌,
}
use amule_remote_qt.Ec.Bytes.{Text}
use amule_remote_qt.App.SavedSearches.{SavedSearch}
use amule_remote_qt.App.Tables.{bytes_equal, each}
use amule_remote_qt.App.Widgets.{spin_shows}
use amule_remote_qt.App.SearchPanel.{Toolkit, Controls, SearchPanel, spin_maximum}
use amule_remote_qt.App.SearchPanel.Tabs.{same_view, remove_at, apply_filter_to_current}

-- `std::clamp(i, 0, n - 1)` of an `int`'s 32-bit pattern.
unfoldable pub clamp_index : ℕ → ℕ → ℕ
clamp_index i n = if leb (2 ^ 31) i then 0 else if ltb (n - 1) i then n - 1 else i

-- What a spin box shows for `static_cast<int>(n)`.
unfoldable pub spin_value : ℕ → ℕ
spin_value n = spin_shows spin_maximum n

abbrev pub same_bool : Bool → Bool → Bool
same_bool true b = b
same_bool false b = not b

-- The saved search of a name is replaced, where there is one, and appended elsewhere.
unfoldable pub store_search : SavedSearch → List SavedSearch → List SavedSearch
store_search s [] = s ∷ []
store_search s (e ∷ es) =
    let rest = store_search s es in if bytes_equal e.name s.name then s ∷ es else e ∷ rest

-- QComboBox::findText.
abbrev pub find_text : Text → List Text → Option ℕ
find_text name [] = none
find_text name (t ∷ ts) =
    let rest = find_text name ts in
    if bytes_equal t name then some 0 else elim rest [ none ↦ none | some n ↦ some (suc n) ]

-- The index of a combo box once its first item is added.
abbrev pub first_index : List SavedSearch → Option ℕ
first_index [] = none
first_index (s ∷ ss) = some 0

unfoldable pub refresh_saved_combo : SearchPanel → SearchPanel
refresh_saved_combo p = record p {
  saved_names = each (λ s. s.name) p.saved;
  saved_index = first_index p.saved;
  saved_enabled = not (same_view (first_index p.saved) none);
}

abbrev pub saved_at : Option ℕ → List SavedSearch → List SavedSearch
saved_at none ss = []
saved_at (some i) [] = []
saved_at (some zero) (s ∷ ss) = s ∷ []
saved_at (some (suc i)) (s ∷ ss) = saved_at (some i) ss

abbrev pub remove_saved : Option ℕ → List SavedSearch → List SavedSearch
remove_saved none ss = ss
remove_saved (some i) ss = remove_at i ss

-- The controls as a saved search of that name.
unfoldable pub saved_of : Text → Controls → SavedSearch
saved_of name c = record {
  name = name;
  text = c.query;
  kind_index = c.kind_index;
  type_index = c.type_index;
  filter_text = c.filter_text;
  filter_negate = c.negate;
  filter_glob = c.glob;
  filter_regex = c.regex;
  only_complete = c.only_complete;
  min_sources = c.min_sources;
  max_sources = c.max_sources;
}

module _ (q : Toolkit) where
  -- A control of the filter that changes. `f` writes the controls.
  abbrev pub refilter : (Controls → Controls) → SearchPanel → SearchPanel
  refilter f p = apply_filter_to_current q (record p { controls = f p.controls })

  unfoldable pub set_filter_text : Text → SearchPanel → SearchPanel
  set_filter_text t p =
      if bytes_equal t p.controls.filter_text
      then p
      else refilter (λ c. record c { filter_text = t }) p

  unfoldable pub set_negate : Bool → SearchPanel → SearchPanel
  set_negate on p =
      if same_bool on p.controls.negate then p else refilter (λ c. record c { negate = on }) p

  unfoldable pub set_only_complete : Bool → SearchPanel → SearchPanel
  set_only_complete on p =
      if same_bool on p.controls.only_complete
      then p
      else refilter (λ c. record c { only_complete = on }) p

  unfoldable pub set_min_sources : ℕ → SearchPanel → SearchPanel
  set_min_sources n p =
      if n == p.controls.min_sources then p else refilter (λ c. record c { min_sources = n }) p

  unfoldable pub set_max_sources : ℕ → SearchPanel → SearchPanel
  set_max_sources n p =
      if n == p.controls.max_sources then p else refilter (λ c. record c { max_sources = n }) p

  -- `setChecked(false)` from the other box's slot: the box's own slot has nothing else to clear.
  unfoldable pub clear_glob : SearchPanel → SearchPanel
  clear_glob p = if p.controls.glob then refilter (λ c. record c { glob = false }) p else p

  unfoldable pub clear_regex : SearchPanel → SearchPanel
  clear_regex p = if p.controls.regex then refilter (λ c. record c { regex = false }) p else p

  unfoldable pub set_glob : Bool → SearchPanel → SearchPanel
  set_glob on p =
      let checked = record p { controls = record p.controls { glob = on } } in
      if same_bool on p.controls.glob
      then p
      else apply_filter_to_current q (if on then clear_regex checked else checked)

  unfoldable pub set_regex : Bool → SearchPanel → SearchPanel
  set_regex on p =
      let checked = record p { controls = record p.controls { regex = on } } in
      if same_bool on p.controls.regex
      then p
      else apply_filter_to_current q (if on then clear_glob checked else checked)
