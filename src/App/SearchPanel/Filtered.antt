-- ===== src/App/SearchPanel/Filtered.antt =====
-- The filter in force in app/searchpanel.cpp: the current tab's proxy has what the controls show.
pub mod Actions
pub mod Histories
use amule_remote_qt.Base.{
  ℕ, zero, suc, ◌≡◌, refl, sym, subst, ◌⊎◌, inl, inr, Bool, true, false, not, ◌&&◌, ◌||◌, Option,
  none, some, List, [], ◌∷◌, ◌++◌, All, if_both, Bool-cases, arith, if◌then◌else◌,
}
use amule_remote_qt.Ec.Bytes.{Bytes, Text}
use amule_remote_qt.Model.Types.{SearchResult}
use amule_remote_qt.App.SearchFilter.{
  SearchFilter, Matching, Proxy, is_empty, expression, set_search_filter, set_anchored,
}
use amule_remote_qt.App.SearchPanel.{
  Toolkit, Controls, ResultTab, SearchPanel, send, stop_requested,
}
use amule_remote_qt.App.SearchPanel.Views.{same_view→≡}
use amule_remote_qt.App.SearchPanel.Tabs.{
  same_view, view_at, remove_at, change_tab, tabs_of, current_filter, update_download_enabled,
  update_anchor, refill, apply_filter_to_current, on_current_tab_changed, make_result_tab,
  set_panel_results, stop_live, remove_tab, show_left, on_tab_close, show_tab,
}

-- A tab is not the current one, or has the filter.
abbrev pub Follows : Option ℕ → SearchFilter → ResultTab → Type 0
Follows current f t = (same_view current (some t.view) ≡ false) ⊎ (t.proxy.filter ≡ f)

pub record Filtered (p : SearchPanel) : Type 0 where
  pub follow : All (Follows p.current (current_filter p.controls)) p.tabs

filter-set_search_filter :
    (m : Matching) (f : SearchFilter) (p : Proxy) → (set_search_filter m f p).filter ≡ f
unfolding set_search_filter
filter-set_search_filter m f p =
    if_both (λ (r : Proxy). r.filter ≡ f) (not (is_empty (m.trimmed f.text)) && (f.regex || f.glob))
      refl refl

-- Every tab of the current view gets the filter.
every_tab_gets :
    (current : Option ℕ) (f : SearchFilter) (g : ResultTab → ResultTab) (ts : List ResultTab)
    → ((t : ResultTab) → (g t).proxy.filter ≡ f)
    → All (Follows current f) (change_tab current g ts)
every_tab_gets current f g [] h = tt
every_tab_gets current f g (t ∷ ts) h = (
  elim (Bool-cases (same_view current (some t.view))) [
    | inl e ↦ rw e (inr (h t))
    | inr e ↦ rw e (inl e)
  ],
  every_tab_gets current f g ts h,
)

-- A change that leaves a tab's view and its filter.
pub keep_following :
    (current view : Option ℕ) (f : SearchFilter) (g : ResultTab → ResultTab) (ts : List ResultTab)
    → ((t : ResultTab) → (g t).view ≡ t.view)
    → ((t : ResultTab) → (g t).proxy.filter ≡ t.proxy.filter)
    → All (Follows current f) ts
    → All (Follows current f) (change_tab view g ts)
keep_following current view f g [] hv hf h = tt
keep_following current view f g (t ∷ ts) hv hf (h, hs) = (
  if_both (Follows current f) (same_view view (some t.view)) (follow_changed h) h,
  keep_following current view f g ts hv hf hs,
)
  where
    follow_changed : Follows current f t → Follows current f (g t)
    follow_changed h = rw (hv t, hf t) h

pub apply-Filtered : (q : Toolkit) (p : SearchPanel) → Filtered (apply_filter_to_current q p)
unfolding apply_filter_to_current
apply-Filtered q p = record {
  follow =
      every_tab_gets p.current (current_filter p.controls) _ p.tabs
        (λ t. filter-set_search_filter q.matching (current_filter p.controls) t.proxy);
}

pub update_anchor-Filtered :
    (view : Option ℕ) (p : SearchPanel) → Filtered p → Filtered (update_anchor view p)
unfolding update_anchor set_anchored
update_anchor-Filtered view p h = record {
  follow =
      keep_following p.current view (current_filter p.controls) _ p.tabs (λ t. refl) (λ t. refl)
        h.follow;
}

pub update_download_enabled-Filtered :
    (p : SearchPanel) → Filtered p → Filtered (update_download_enabled p)
unfolding update_download_enabled
update_download_enabled-Filtered p h = record { follow = h.follow }

remove-follow :
    (o : Option ℕ) (f : SearchFilter) (i : ℕ) (ts : List ResultTab)
    → All (Follows o f) ts
    → All (Follows o f) (remove_at i ts)
remove-follow o f i [] h = tt
remove-follow o f zero (t ∷ ts) h = h.1
remove-follow o f (suc i) (t ∷ ts) h = (h.0, remove-follow o f i ts h.1)

module _ (q : Toolkit) where
  -- Whatever the filter of the tab shown was, it is the controls' once the tab is shown.
  pub on_current_tab_changed-Filtered : (p : SearchPanel) → Filtered (on_current_tab_changed q p)
  unfolding on_current_tab_changed
  on_current_tab_changed-Filtered p =
      update_anchor-Filtered p.current _ (update_download_enabled-Filtered _ (apply-Filtered q p))

  pub set_panel_results-Filtered :
      (rs : List SearchResult) (p : SearchPanel) → Filtered p → Filtered (set_panel_results q rs p)
  unfolding set_panel_results refill
  set_panel_results-Filtered rs p h = if_both Filtered (same_view p.live none) h (record {
    follow =
        keep_following p.current p.live (current_filter p.controls) _ p.tabs (λ t. refl) (λ t. refl)
          h.follow;
  })

  -- Before the tab widget's signal only the view shown before is known to be filtered.
  left-follow :
      (i shown : ℕ) (page : Option ℕ) (p : SearchPanel)
      → Filtered p
      → All
          (Follows p.current (current_filter p.controls))
          (remove_tab q i shown (stop_live q page p)).tabs
  unfolding remove_tab stop_live
  left-follow i shown page p h =
      if_both
        (λ (r : SearchPanel).
          All (Follows p.current (current_filter p.controls)) (remove_at i r.tabs))
        (same_view page p.live)
        (remove-follow p.current (current_filter p.controls) i p.tabs h.follow)
        (remove-follow p.current (current_filter p.controls) i p.tabs h.follow)

  controls-remove_tab :
      (i shown : ℕ) (page : Option ℕ) (p : SearchPanel)
      → (remove_tab q i shown (stop_live q page p)).controls ≡ p.controls
  unfolding remove_tab stop_live
  controls-remove_tab i shown page p =
      if_both (λ (r : SearchPanel). r.controls ≡ p.controls) (same_view page p.live) refl refl

  show_left-Filtered :
      (told : Bool) (before : Option ℕ) (p : SearchPanel)
      → All (Follows before (current_filter p.controls)) p.tabs
      → Filtered (show_left q told before p)
  unfolding show_left
  show_left-Filtered true before p h = on_current_tab_changed-Filtered p
  show_left-Filtered false before p h = elim (Bool-cases (same_view p.current before)) [
    | inl e ↦ rw e (record {
      follow =
          subst (λ o. All (Follows o (current_filter p.controls)) p.tabs)
            (sym (same_view→≡ p.current before e)) h;
    })
    | inr e ↦ rw e (on_current_tab_changed-Filtered p)
  ]

  pub on_tab_close-Filtered :
      (i shown : ℕ) (told : Bool) (p : SearchPanel)
      → Filtered p
      → Filtered (on_tab_close q i shown told p)
  unfolding on_tab_close
  on_tab_close-Filtered i shown told p h =
      let page = view_at i p.tabs in
      update_download_enabled-Filtered _ (
        show_left-Filtered told p.current _ (
          subst
            (λ c.
              All (Follows p.current (current_filter c))
                (remove_tab q i shown (stop_live q page p)).tabs)
            (sym (controls-remove_tab i shown page p)) (left-follow i shown page p h)))

  pub show_tab-Filtered : (i : ℕ) (p : SearchPanel) → Filtered p → Filtered (show_tab q i p)
  unfolding show_tab
  show_tab-Filtered i p h =
      let view = view_at i p.tabs in
      if_both Filtered (same_view view none || same_view view p.current) h
        (on_current_tab_changed-Filtered (record p { current = view }))
