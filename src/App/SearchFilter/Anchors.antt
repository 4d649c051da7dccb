-- ===== src/App/SearchFilter/Anchors.antt =====
-- `lessThan` of app/searchfilterproxy.cpp with anchored rows.
use amule_remote_qt.Base.{ℕ, ◌≡◌, Bool, true, false, arith}
use amule_remote_qt.App.SearchFilter.{Proxy, SortOrder, ascending, descending, one_of, less_than}

-- A view lists in falling order by turning the comparison round.
abbrev pub comes_first : Proxy → SortOrder → (ℕ → ℕ → Bool) → ℕ → ℕ → Bool
comes_first p ascending less l r = less_than p ascending less l r
comes_first p descending less l r = less_than p descending less r l

-- With anchoring on, an anchored row comes before every row that is not, in either order, whatever
-- the columns compare.
pub comes_first_anchored :
    (p : Proxy) (order : SortOrder) (less : ℕ → ℕ → Bool) (l r : ℕ)
    → p.anchor_enabled ≡ true
    → one_of p.anchored l ≡ true
    → one_of p.anchored r ≡ false
    → (comes_first p order less l r ≡ true) × (comes_first p order less r l ≡ false)
unfolding less_than
comes_first_anchored p ascending less l r on left right = ground arith
comes_first_anchored p descending less l r on left right = ground arith

-- Where the columns' comparison is transitive, the one with anchored rows is too.
pub less_than_transitive :
    (p : Proxy) (order : SortOrder) (less : ℕ → ℕ → Bool)
    → ((a b c : ℕ) → less a b ≡ true → less b c ≡ true → less a c ≡ true)
    → (a b c : ℕ) → less_than p order less a b ≡ true
    → less_than p order less b c ≡ true
    → less_than p order less a c ≡ true
unfolding less_than
less_than_transitive p ascending less transitive a b c h k = ground (arith, transitive a b c)
less_than_transitive p descending less transitive a b c h k = ground (arith, transitive a b c)
