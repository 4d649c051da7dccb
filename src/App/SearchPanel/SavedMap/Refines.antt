-- ===== src/App/SearchPanel/SavedMap/Refines.antt =====
-- Deleting a saved search in app/searchpanel.cpp forgets its name, and the panel's histories are
-- histories of the map.
use amule_remote_qt.Base.{
  ℕ, zero, suc, ◌≡◌, refl, sym, ap, true, false, Option, none, some, List, [], ◌∷◌, Bool-cases, inl,
  inr, arith,
}
use mathlib.Core.Path.{fun_ext}
use amule_remote_qt.Ec.Bytes.{Text}
use amule_remote_qt.App.SavedSearches.{SavedSearch}
use amule_remote_qt.App.Tables.{bytes_equal, each, is_empty}
use amule_remote_qt.App.Tables.Layout.{bytes_equal_iff}
use amule_remote_qt.App.SearchPanel.Tabs.{remove_at}
use amule_remote_qt.App.SearchPanel.Choices.{store_search, remove_saved, saved_at}
use amule_remote_qt.App.SearchPanel.SavedMap.{
  SavedMap, find_saved, put, forget, has_name, DistinctNames, swap, names_exclude,
  find_saved-store_search, store_search-DistinctNames,
}

abbrev pub names : List SavedSearch → List Text
names ss = each (λ s. s.name) ss

-- The item at an index of the combo box is forgotten; past the last there is none.
abbrev pub forget_item : ℕ → List Text → SavedMap → SavedMap
forget_item i [] m = m
forget_item zero (t ∷ ts) m = forget t m
forget_item (suc i) (t ∷ ts) m = forget_item i ts m

abbrev pub forget_chosen : Option ℕ → List Text → SavedMap → SavedMap
forget_chosen none ts m = m
forget_chosen (some i) ts m = forget_item i ts m

find_saved-fresh :
    (name : Text) (ss : List SavedSearch) → has_name name ss ≡ false → find_saved ss name ≡ none
find_saved-fresh name [] h = refl
find_saved-fresh name (s ∷ ss) h = ground (arith, find_saved-fresh name ss)

-- The first name is not the one that goes.
forget_item-over :
    (i : ℕ) (e : SavedSearch) (ss : List SavedSearch) (m : SavedMap) (name : Text)
    → has_name e.name ss ≡ false
    → forget_item i (names ss) (put e m) name ≡ put e (forget_item i (names ss) m) name
forget_item-over i e [] m name h = refl
forget_item-over zero e (s ∷ ss) m name h =
    swap (bytes_equal s.name name) (bytes_equal e.name name) none (some e) (m name)
      (names_exclude s.name e.name name (ground arith))
forget_item-over (suc i) e (s ∷ ss) m name h = forget_item-over i e ss m name (ground arith)

find_saved-remove :
    (i : ℕ) (ss : List SavedSearch) (name : Text)
    → DistinctNames ss
    → find_saved (remove_at i ss) name ≡ forget_item i (names ss) (find_saved ss) name
find_saved-remove i [] name h = refl
find_saved-remove zero (s ∷ ss) name (fresh, distinct) =
    elim (Bool-cases (bytes_equal s.name name)) [
      | inl e ↦ rw (e, sym ((bytes_equal_iff s.name name).0 e)) (find_saved-fresh s.name ss fresh)
      | inr e ↦ rw e refl
    ]
find_saved-remove (suc i) (s ∷ ss) name (fresh, distinct) =
    rw (find_saved-remove i ss name distinct)
      (sym (forget_item-over i s ss (find_saved ss) name fresh))

has_name-remove :
    (name : Text) (i : ℕ) (ss : List SavedSearch)
    → has_name name ss ≡ false
    → has_name name (remove_at i ss) ≡ false
has_name-remove name i [] h = refl
has_name-remove name zero (s ∷ ss) h = ground arith
has_name-remove name (suc i) (s ∷ ss) h = ground (arith, has_name-remove name i ss)

remove_at-DistinctNames :
    (i : ℕ) (ss : List SavedSearch) → DistinctNames ss → DistinctNames (remove_at i ss)
remove_at-DistinctNames i [] h = tt
remove_at-DistinctNames zero (s ∷ ss) h = h.1
remove_at-DistinctNames (suc i) (s ∷ ss) (fresh, distinct) =
    (has_name-remove s.name i ss fresh, remove_at-DistinctNames i ss distinct)

-- The list after a change of the map.
pub record Changes (f : SavedMap → SavedMap) (before after : List SavedSearch) : Type 0 where
  pub changed : find_saved after ≡ f (find_saved before)
  pub distinct : DistinctNames after

pub store_search-Changes :
    (s : SavedSearch) (ss : List SavedSearch)
    → DistinctNames ss
    → Changes (put s) ss (store_search s ss)
store_search-Changes s ss h = record {
  changed = find_saved-store_search s ss;
  distinct = store_search-DistinctNames s ss h;
}

pub remove_saved-Changes :
    (chosen : Option ℕ) (ss : List SavedSearch)
    → DistinctNames ss
    → Changes (forget_chosen chosen (names ss)) ss (remove_saved chosen ss)
remove_saved-Changes none ss h = record { changed = refl; distinct = h }
remove_saved-Changes (some i) ss h = record {
  changed = fun_ext (λ name. find_saved-remove i ss name h);
  distinct = remove_at-DistinctNames i ss h;
}

-- Where no saved search is chosen, none is removed.
pub remove_saved-absent :
    (chosen : Option ℕ) (ss : List SavedSearch)
    → is_empty (saved_at chosen ss) ≡ true
    → remove_saved chosen ss ≡ ss
remove_saved-absent none ss h = refl
remove_saved-absent (some i) [] h = refl
remove_saved-absent (some zero) (s ∷ ss) h = absurd (ground arith)
remove_saved-absent (some (suc i)) (s ∷ ss) h = ap (◌∷◌ s) (remove_saved-absent (some i) ss h)
