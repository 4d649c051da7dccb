-- ===== src/App/SearchPanel/SavedMap.antt =====
-- The saved searches of app/searchpanel.cpp as a map from names to searches.
pub mod Refines
pub mod Unsaved
pub mod Steps
pub mod Histories
use amule_remote_qt.Base.{
  ℕ, zero, suc, ◌≡◌, refl, sym, ap₂, ◌==◌, Bool, true, false, ◌||◌, ◌&&◌, Option, none, some, List,
  [], ◌∷◌, if◌then◌else◌, Bool-cases, inl, inr, arith,
}
use mathlib.Core.Path.{fun_ext}
use amule_remote_qt.Ec.Bytes.{Text}
use amule_remote_qt.App.SavedSearches.{SavedSearch}
use amule_remote_qt.App.Tables.{bytes_equal}
use amule_remote_qt.App.Tables.Layout.{bytes_equal_iff}
use amule_remote_qt.App.SearchPanel.Tabs.{remove_at}
use amule_remote_qt.App.SearchPanel.Choices.{store_search, saved_at}

abbrev pub SavedMap : Type 0
SavedMap = Text → Option SavedSearch

abbrev pub find_saved : List SavedSearch → SavedMap
find_saved [] name = none
find_saved (s ∷ ss) name =
    let rest = find_saved ss name in if bytes_equal s.name name then some s else rest

abbrev pub put : SavedSearch → SavedMap → SavedMap
put s m name = if bytes_equal s.name name then some s else m name

abbrev pub forget : Text → SavedMap → SavedMap
forget gone m name = if bytes_equal gone name then none else m name

abbrev pub has_name : Text → List SavedSearch → Bool
has_name name [] = false
has_name name (s ∷ ss) = bytes_equal s.name name || has_name name ss

-- No two saved searches have one name.
abbrev pub DistinctNames : List SavedSearch → Type 0
DistinctNames [] = Unit
DistinctNames (s ∷ ss) = (has_name s.name ss ≡ false) × DistinctNames ss

-- Conditionals under each other: the same test again, and two tests that exclude each other.
again :
    {A : Type 0} (b : Bool) (x y z : A)
    → (if b then x else z) ≡ (if b then x else (if b then y else z))
again true x y z = refl
again false x y z = refl

pub swap :
    {A : Type 0} (a b : Bool) (x y z : A)
    → (a && b) ≡ false
    → (if a then x else (if b then y else z)) ≡ (if b then y else (if a then x else z))
swap true true x y z h = absurd (ground arith)
swap true false x y z h = refl
swap false b x y z h = refl

bytes_equal-sym : (a b : Text) → bytes_equal a b ≡ bytes_equal b a
bytes_equal-sym [] [] = refl
bytes_equal-sym [] (c ∷ cs) = refl
bytes_equal-sym (b ∷ bs) [] = refl
bytes_equal-sym (b ∷ bs) (c ∷ cs) = ap₂ ◌&&◌ (==-sym b c) (bytes_equal-sym bs cs)
  where
    ==-sym : (m n : ℕ) → (m == n) ≡ (n == m)
    ==-sym m n = ground arith

-- One name is not two.
pub names_exclude :
    (a b name : Text) → bytes_equal a b ≡ false → (bytes_equal a name && bytes_equal b name) ≡ false
names_exclude a b name h = elim (Bool-cases (bytes_equal a name)) [
  | inl e ↦ rw (e, sym ((bytes_equal_iff a name).0 e)) (rw (bytes_equal-sym b a) h)
  | inr e ↦ rw e refl
]

find_saved-store :
    (s : SavedSearch) (ss : List SavedSearch) (name : Text)
    → find_saved (store_search s ss) name ≡ put s (find_saved ss) name
unfolding store_search
find_saved-store s [] name = refl
find_saved-store s (e ∷ es) name = elim (Bool-cases (bytes_equal e.name s.name)) [
  | inl same ↦
      rw (same, (bytes_equal_iff e.name s.name).0 same)
        (again (bytes_equal s.name name) (some s) _ _)
  | inr other ↦
      rw (other, find_saved-store s es name)
        (swap (bytes_equal e.name name) (bytes_equal s.name name) (some e) (some s) _
          (names_exclude e.name s.name name other))
]

-- Storing a search puts it into the map, whether its name is new or not.
pub find_saved-store_search :
    (s : SavedSearch) (ss : List SavedSearch)
    → find_saved (store_search s ss) ≡ put s (find_saved ss)
find_saved-store_search s ss = fun_ext (find_saved-store s ss)

has_name-store :
    (name : Text) (s : SavedSearch) (ss : List SavedSearch)
    → bytes_equal name s.name ≡ false
    → has_name name ss ≡ false
    → has_name name (store_search s ss) ≡ false
unfolding store_search
has_name-store name s [] n h = rw (bytes_equal-sym s.name name) (ground arith)
has_name-store name s (e ∷ es) n h = elim (Bool-cases (bytes_equal e.name s.name)) [
  | inl same ↦ rw (same, bytes_equal-sym s.name name) (ground arith)
  | inr other ↦ rw other (ground (arith, has_name-store name s es n))
]

-- Stored under its name, a search leaves the names distinct.
pub store_search-DistinctNames :
    (s : SavedSearch) (ss : List SavedSearch) → DistinctNames ss → DistinctNames (store_search s ss)
unfolding store_search
store_search-DistinctNames s [] h = (refl, tt)
store_search-DistinctNames s (e ∷ es) (fresh, distinct) =
    elim (Bool-cases (bytes_equal e.name s.name)) [
      | inl same ↦ rw (same, sym ((bytes_equal_iff e.name s.name).0 same)) (fresh, distinct)
      | inr other ↦
          rw other
            (has_name-store e.name s es other fresh, store_search-DistinctNames s es distinct)
    ]
