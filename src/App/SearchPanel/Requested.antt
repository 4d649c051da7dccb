-- ===== src/App/SearchPanel/Requested.antt =====
-- What app/searchpanel.cpp asks for: the downloads of results that the live tab has.
pub mod Menu
pub mod Steps
use amule_remote_qt.Base.{
  ℕ, zero, suc, ◌≡◌, refl, sym, ap, subst, ◌∙◌, ==_iff, Bool, true, false, not, ◌||◌, Option, none,
  some, List, [], ◌∷◌, ◌++◌, ◌==◌, All, append_assoc, append-nil, if◌then◌else◌, if_both,
  Bool-cases, inl, inr, arith, leb, ltb, length, replicate,
}
use amule_remote_qt.Ec.Bytes.{Bytes}
use amule_remote_qt.Ec.Tag.{Hash16}
use amule_remote_qt.Model.Types.{SearchResult}
use amule_remote_qt.App.SearchFilter.{is_empty}
use amule_remote_qt.App.Tables.{is_empty as is_none, bytes_equal, at_row, each, result_hash_at}
use amule_remote_qt.App.Tables.Layout.{bytes_equal_iff}
use amule_remote_qt.App.SearchPanel.{
  Toolkit, ResultTab, PanelSignal, search_requested, stop_requested, download_requested,
  SearchPanel, send, spin_maximum,
}
use amule_remote_qt.App.SearchPanel.Tabs.{
  same_view, view_at, tabs_of, make_result_tab, update_download_enabled, stop_live, remove_tab,
  show_left, on_tab_close,
}
use amule_remote_qt.App.SearchPanel.Downloads
use amule_remote_qt.App.SearchPanel.Downloads.{
  is_zero_hash, request_rows, request_selected, request_clicked, on_download, MenuChoice,
  on_result_context_menu, set_progress, set_searching,
}
use amule_remote_qt.App.SearchPanel.Choices.{saved_at, refresh_saved_combo}
use amule_remote_qt.App.SearchPanel.Slots.{
  on_search, on_save_search, fill_controls, load_chosen, on_load_saved, on_delete_saved,
}
use amule_remote_qt.App.SearchPanel.Events
use amule_remote_qt.App.SearchPanel.Events.{PanelEvent, panel_step}
use amule_remote_qt.App.SearchPanel.Views.{same_view→≡}
use amule_remote_qt.App.SearchPanel.Core.{
  SameCore, same_core, select_rows-core, set_anchor-core, show_left-core, show_tab-core,
  make_result_tab-core, set_panel_results-core, set_filter_text-core, set_negate-core,
  set_only_complete-core, set_min_sources-core, set_max_sources-core, set_glob-core, set_regex-core,
  fill_controls-core,
}

-- Whether a hash is that of one of the results.
abbrev pub listed_hash : Hash16 → List SearchResult → Bool
listed_hash h [] = false
listed_hash h (r ∷ rs) = bytes_equal r.hash h || listed_hash h rs

abbrev pub offered : Hash16 → List ResultTab → Bool
offered h [] = false
offered h (t ∷ ts) = listed_hash h t.results

-- A download is asked for of a hash that is not null and that the tab offers.
abbrev pub Allowed : List ResultTab → PanelSignal → Type 0
Allowed ts (download_requested h) = (is_zero_hash h ≡ false) × (offered h ts ≡ true)
Allowed ts _ = Unit

-- The signals `later` are those `earlier` and then only allowed ones.
pub record Emits (ts : List ResultTab) (earlier later : List PanelSignal) : Type 0 where
  pub latest : List PanelSignal
  pub follows : later ≡ earlier ++ latest
  pub allowed : All (Allowed ts) latest

module _ (ts : List ResultTab) where
  pub none_emitted : (ss : List PanelSignal) → Emits ts ss ss
  none_emitted ss = record { latest = []; follows = sym (append-nil ss); allowed = tt }

  All-append_one :
      (ss : List PanelSignal) (s : PanelSignal)
      → All (Allowed ts) ss
      → Allowed ts s
      → All (Allowed ts) (ss ++ s ∷ [])
  All-append_one [] s h k = (k, tt)
  All-append_one (r ∷ ss) s h k = (h.0, All-append_one ss s h.1 k)

  pub one_emitted :
      (earlier later : List PanelSignal) (s : PanelSignal)
      → Allowed ts s
      → Emits ts earlier later
      → Emits ts earlier (later ++ s ∷ [])
  one_emitted earlier later s k h = record {
    latest = h.latest ++ s ∷ [];
    follows = ap (λ l. l ++ s ∷ []) h.follows ∙ append_assoc earlier h.latest (s ∷ []);
    allowed = All-append_one h.latest s h.allowed k;
  }

  pub SameCore-Emits : (o p : SearchPanel) → SameCore o p → Emits ts o.emitted p.emitted
  SameCore-Emits o p h =
      subst (λ ss. Emits ts o.emitted ss) (sym (ap (λ c. c.emitted) h.same))
        (none_emitted o.emitted)

-- Past the last row is the null hash.
listed-result_hash_at :
    (row : ℕ) (rs : List SearchResult)
    → is_zero_hash (result_hash_at row rs) ≡ false
    → listed_hash (result_hash_at row rs) rs ≡ true
unfolding result_hash_at
listed-result_hash_at row [] e = absurd (ground arith)
listed-result_hash_at zero (r ∷ rs) e = rw ((bytes_equal_iff r.hash r.hash).1 refl) refl
listed-result_hash_at (suc row) (r ∷ rs) e =
    or_true (bytes_equal r.hash (result_hash_at row rs)) _ (listed-result_hash_at row rs e)
  where
    or_true : (a b : Bool) → b ≡ true → (a || b) ≡ true
    or_true a b h = ground arith

-- The live tab is the current one, or the one whose menu is open.
pub tabs_of-same :
    (a b : Option ℕ) (ts : List ResultTab) → same_view a b ≡ true → tabs_of a ts ≡ tabs_of b ts
tabs_of-same a b ts e = ap (λ o. tabs_of o ts) (same_view→≡ a b e)

request_rows-Emits :
    (rows : List ℕ) (t : ResultTab) (ts : List ResultTab) (earlier : List PanelSignal)
    (p : SearchPanel)
    → Emits (t ∷ ts) earlier p.emitted
    → Emits (t ∷ ts) earlier (request_rows rows t.results p).emitted
unfolding request_rows
request_rows-Emits [] t ts earlier p h = h
request_rows-Emits (row ∷ rows) t ts earlier p h =
    let hash = result_hash_at row t.results in
    request_rows-Emits rows t ts earlier _ (elim (Bool-cases (is_zero_hash hash)) [
      | inl e ↦ rw e h
      | inr e ↦ rw e (
          one_emitted (t ∷ ts) earlier p.emitted (download_requested hash)
            (e, listed-result_hash_at row t.results e) h)
    ])

pub request_selected-Emits :
    (ts : List ResultTab) (p : SearchPanel) → Emits ts p.emitted (request_selected ts p).emitted
request_selected-Emits [] p = none_emitted [] p.emitted
request_selected-Emits (t ∷ ts) p =
    request_rows-Emits t.selected t ts p.emitted p (none_emitted (t ∷ ts) p.emitted)

pub request_clicked-Emits :
    (row : ℕ) (ts : List ResultTab) (p : SearchPanel)
    → Emits ts p.emitted (request_clicked row ts p).emitted
request_clicked-Emits row [] p = none_emitted [] p.emitted
request_clicked-Emits row (t ∷ ts) p =
    request_rows-Emits (row ∷ []) t ts p.emitted p (none_emitted (t ∷ ts) p.emitted)

-- What a panel's live tab offers, before an event.
abbrev pub live_tabs : SearchPanel → List ResultTab
live_tabs p = tabs_of p.live p.tabs

-- From the panel `o` to the panel `p` only downloads that `o` offers are asked for.
pub record Asks (o p : SearchPanel) : Type 0 where
  pub asks : Emits (live_tabs o) o.emitted p.emitted

pub on_download-Asks : (p : SearchPanel) → Asks p (on_download p)
unfolding on_download
on_download-Asks p = elim (Bool-cases (same_view p.current p.live)) [
  | inl e ↦ rw e (record {
    asks =
        subst (λ ts. Emits ts p.emitted (request_selected (tabs_of p.current p.tabs) p).emitted)
          (tabs_of-same p.current p.live p.tabs e)
          (request_selected-Emits (tabs_of p.current p.tabs) p);
  })
  | inr e ↦ rw e (record { asks = none_emitted (live_tabs p) p.emitted })
]
