-- ===== src/App/Tables/Layout.antt =====
-- When the tables of app/ update in place, and what a view may keep then.
use amule_remote_qt.Base.{
  ℕ, ◌≡◌, ◌≢◌, ◌↔◌, refl, ap, ap₂, ==_iff, Bool, true, false, not, ◌&&◌, List, [], ◌∷◌, ◌==◌,
  if◌then◌else◌, arith, replicate,
}
use amule_remote_qt.Ec.Bytes.{Bytes}
use amule_remote_qt.Model.Types.{Download, Server, SearchResult}
use amule_remote_qt.App.Tables.{
  data_changed, reset, bytes_equal, is_empty, same_layout, set_rows, set_downloads, set_servers,
  set_results, at_row, each, download_hash_at,
}

both_true : (a b : Bool) → (a && b) ≡ true → (a ≡ true) × (b ≡ true)
both_true a b h = ground arith

head_equal : {A : Type 0} (a b : A) (xs ys : List A) → a ∷ xs ≡ b ∷ ys → a ≡ b
head_equal a b xs ys h = cc

tail_equal : {A : Type 0} (a b : A) (xs ys : List A) → a ∷ xs ≡ b ∷ ys → xs ≡ ys
tail_equal a b xs ys h = cc

in_place :
    (a b : Bool) → (if a && b then data_changed else reset) ≡ data_changed → (a ≡ true) × (b ≡ true)
in_place true true h = (refl, refl)
in_place true false h = absurd (cc)
in_place false b h = absurd (cc)

not_empty : {A : Type 0} (xs : List A) → not (is_empty xs) ≡ true → xs ≢ []
not_empty [] h = absurd (cc)
not_empty (x ∷ xs) h = λ e. absurd (cc)

filled_row : {A : Type 0} (xs : List A) → xs ≢ [] → not (is_empty xs) ≡ true
filled_row [] h = absurd (h refl)
filled_row (x ∷ xs) h = refl

pub bytes_equal_iff : (bs cs : Bytes) → (bytes_equal bs cs ≡ true) ↔ (bs ≡ cs)
bytes_equal_iff [] [] = (λ h. refl, λ h. refl)
bytes_equal_iff [] (c ∷ cs) = (λ h. absurd (cc), λ h. absurd (cc))
bytes_equal_iff (b ∷ bs) [] = (λ h. absurd (cc), λ h. absurd (cc))
bytes_equal_iff (b ∷ bs) (c ∷ cs) = (
  λ h.
      let (first, rest) = both_true (b == c) (bytes_equal bs cs) h in
      ap₂ ◌∷◌ ((==_iff b c).0 first) ((bytes_equal_iff bs cs).0 rest),
  λ h.
      rw
        (
          (==_iff b c).1 (head_equal b c bs cs h),
          (bytes_equal_iff bs cs).1 (tail_equal b c bs cs h),
        )
        refl,
)

module _ {A K : Type 0} (same : A → A → Bool) (key : A → K)
    (by_key : (a b : A) → (same a b ≡ true) ↔ (key a ≡ key b)) where
  same_layout_iff : (xs bs : List A) → (same_layout same xs bs ≡ true) ↔ (each key xs ≡ each key bs)
  unfolding same_layout
  same_layout_iff [] [] = (λ h. refl, λ h. refl)
  same_layout_iff [] (b ∷ bs) = (λ h. absurd (cc), λ h. absurd (cc))
  same_layout_iff (a ∷ xs) [] = (λ h. absurd (cc), λ h. absurd (cc))
  same_layout_iff (a ∷ xs) (b ∷ bs) = (
    λ h.
        let (first, rest) = both_true (same a b) (same_layout same xs bs) h in
        ap₂ ◌∷◌ ((by_key a b).0 first) ((same_layout_iff xs bs).0 rest),
    λ h.
        rw
          (
            (by_key a b).1 (head_equal (key a) (key b) _ _ h),
            (same_layout_iff xs bs).1 (tail_equal (key a) (key b) _ _ h),
          )
          refl,
  )

  pub set_rows_in_place :
      (next rows : List A)
      → ((set_rows same next rows).1 ≡ data_changed)
        ↔ ((each key next ≡ each key rows) × (next ≢ []))
  unfolding set_rows
  set_rows_in_place next rows = (
    λ h.
        let (same_keys, filled) = in_place _ _ h in
        ((same_layout_iff next rows).0 same_keys, not_empty next filled),
    λ (keys, filled). rw ((same_layout_iff next rows).1 keys) (rw (filled_row next filled) refl),
  )

abbrev pub server_key : Server → Bytes × ℕ
server_key s = (s.ip, s.port)

server_key_iff :
    (a b : Server)
    → ((bytes_equal a.ip b.ip && a.port == b.port) ≡ true) ↔ (server_key a ≡ server_key b)
server_key_iff a b = (
  λ h.
      let (ips, ports) = both_true _ _ h in
      ap₂ (λ i p. (i, p)) ((bytes_equal_iff a.ip b.ip).0 ips) ((==_iff a.port b.port).0 ports),
  λ h.
      rw
        (
          (bytes_equal_iff a.ip b.ip).1 (ap (λ k. k.0) h),
          (==_iff a.port b.port).1 (ap (λ k. k.1) h),
        )
        refl,
)

-- The downloads are updated in place exactly when there are some and their hashes are, row by row,
-- those that were listed.
pub set_downloads_in_place :
    (next rows : List Download)
    → ((set_downloads next rows).1 ≡ data_changed)
      ↔ ((each (λ d. d.hash) next ≡ each (λ d. d.hash) rows) × (next ≢ []))
unfolding set_downloads
set_downloads_in_place next rows =
    set_rows_in_place (λ a b. bytes_equal a.hash b.hash) (λ d. d.hash)
      (λ a b. bytes_equal_iff a.hash b.hash) next rows

-- A download's row that a view has selected before an update in place has the same hash after it.
pub set_downloads_keeps :
    (next rows : List Download) (row : ℕ)
    → (set_downloads next rows).1 ≡ data_changed
    → download_hash_at row (set_downloads next rows).0 ≡ download_hash_at row rows
unfolding download_hash_at
set_downloads_keeps next rows row h =
    ap (at_row (replicate 16 0) row)
      (unfold set_downloads set_rows in ((set_downloads_in_place next rows).0 h).0)

-- The search results are updated in place exactly when there are some and their hashes are, row by
-- row, those that were listed.
pub set_results_in_place :
    (next rows : List SearchResult)
    → ((set_results next rows).1 ≡ data_changed)
      ↔ ((each (λ r. r.hash) next ≡ each (λ r. r.hash) rows) × (next ≢ []))
unfolding set_results
set_results_in_place next rows =
    set_rows_in_place (λ a b. bytes_equal a.hash b.hash) (λ r. r.hash)
      (λ a b. bytes_equal_iff a.hash b.hash) next rows

-- The servers are updated in place exactly when there are some and their addresses and ports are,
-- row by row, those that were listed.
pub set_servers_in_place :
    (next rows : List Server)
    → ((set_servers next rows).1 ≡ data_changed)
      ↔ ((each server_key next ≡ each server_key rows) × (next ≢ []))
unfolding set_servers
set_servers_in_place next rows =
    set_rows_in_place (λ a b. bytes_equal a.ip b.ip && a.port == b.port) server_key server_key_iff
      next rows
