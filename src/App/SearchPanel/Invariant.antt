-- ===== src/App/SearchPanel/Invariant.antt =====
-- The invariant of app/searchpanel.cpp: which views the panel holds on to, when a download can be
-- asked for, and that a filter is not a glob and an expression at once.
use amule_remote_qt.Base.{
  ℕ, ◌+◌, ◌<◌, ◌≡◌, refl, sym, subst, Bool, false, not, ◌&&◌, ◌||◌, Option, none, some, List, [],
  ◌∷◌, All, if_both, Bool-cases, inl, inr, arith,
}
use amule_remote_qt.Ec.Bytes.{Text}
use amule_remote_qt.Model.Types.{SearchResult}
use amule_remote_qt.App.SearchPanel.{Toolkit, ResultTab, SearchPanel}
use amule_remote_qt.App.SearchPanel.Views.{
  views, IsOpen, views-change_tab, IsOpen-append, view_in_last, fresh-append, views-append,
  IsOpen-remove, IsOpen-view_at, fresh-remove,
}
use amule_remote_qt.App.SearchPanel.Tabs.{
  same_view, view_at, remove_at, tabs_of, is_selected, update_download_enabled, update_anchor,
  refill, apply_filter_to_current, on_current_tab_changed, make_result_tab, set_panel_results,
  stop_live, remove_tab, show_left, on_tab_close, show_tab,
}

-- The live view and the current one are open, a view that is still to come is not, and the filter
-- is not a glob and an expression at once.
pub record Held (p : SearchPanel) : Type 0 where
  pub live_open : IsOpen p.live (views p.tabs)
  pub current_open : IsOpen p.current (views p.tabs)
  pub fresh : All (λ v. v < p.next_view) (views p.tabs)
  pub exclusive : (p.controls.glob && p.controls.regex) ≡ false

-- Both views are the same one, and it is there.
abbrev pub is_the : Option ℕ → Option ℕ → Bool
is_the current live = not (same_view current none) && same_view current live

pub record PanelInv (p : SearchPanel) : Type 0 where
  pub held : Held p
  pub button : (p.download_enabled && not (is_the p.current p.live)) ≡ false

-- A change of the tabs that leaves the views does not matter.
pub keeps-Held :
    (p : SearchPanel) (ts : List ResultTab)
    → views ts ≡ views p.tabs
    → Held p
    → Held (record p { tabs = ts })
keeps-Held p ts e h = record {
  live_open = subst (IsOpen p.live) (sym e) h.live_open;
  current_open = subst (IsOpen p.current) (sym e) h.current_open;
  fresh = subst (All (λ v. v < p.next_view)) (sym e) h.fresh;
  exclusive = h.exclusive;
}

pub keeps-PanelInv :
    (p : SearchPanel) (ts : List ResultTab)
    → views ts ≡ views p.tabs
    → PanelInv p
    → PanelInv (record p { tabs = ts })
keeps-PanelInv p ts e h = record { held = keeps-Held p ts e h.held; button = h.button }

pub update_anchor-PanelInv :
    (view : Option ℕ) (p : SearchPanel) → PanelInv p → PanelInv (update_anchor view p)
unfolding update_anchor
update_anchor-PanelInv view p h = keeps-PanelInv p _ (views-change_tab view _ p.tabs (λ t. refl)) h

-- The button is set anew.
pub update_download_enabled-PanelInv :
    (p : SearchPanel) → Held p → PanelInv (update_download_enabled p)
unfolding update_download_enabled
update_download_enabled-PanelInv p h = record {
  held = record {
    live_open = h.live_open;
    current_open = h.current_open;
    fresh = h.fresh;
    exclusive = h.exclusive;
  };
  button = implied (is_the p.current p.live) (is_selected (tabs_of p.current p.tabs));
}
  where
    implied : (a b : Bool) → ((a && b) && not a) ≡ false
    implied a b = ground arith

module _ (q : Toolkit) where
  pub apply_filter_to_current-Held : (p : SearchPanel) → Held p → Held (apply_filter_to_current q p)
  unfolding apply_filter_to_current
  apply_filter_to_current-Held p h =
      keeps-Held p _ (views-change_tab p.current _ p.tabs (λ t. refl)) h

  pub apply_filter_to_current-PanelInv :
      (p : SearchPanel) → PanelInv p → PanelInv (apply_filter_to_current q p)
  unfolding apply_filter_to_current
  apply_filter_to_current-PanelInv p h =
      keeps-PanelInv p _ (views-change_tab p.current _ p.tabs (λ t. refl)) h

  pub on_current_tab_changed-PanelInv :
      (p : SearchPanel) → Held p → PanelInv (on_current_tab_changed q p)
  unfolding on_current_tab_changed
  on_current_tab_changed-PanelInv p h =
      update_anchor-PanelInv p.current _
        (update_download_enabled-PanelInv _ (apply_filter_to_current-Held p h))

  pub set_panel_results-PanelInv :
      (rs : List SearchResult) (p : SearchPanel) → PanelInv p → PanelInv (set_panel_results q rs p)
  unfolding set_panel_results refill
  set_panel_results-PanelInv rs p h =
      if_both PanelInv (same_view p.live none) h
        (keeps-PanelInv p _ (views-change_tab p.live _ p.tabs (λ t. refl)) h)

pub make_result_tab-PanelInv :
    (q : Toolkit) (label : Text) (p : SearchPanel) → Held p → PanelInv (make_result_tab q label p)
unfolding make_result_tab
make_result_tab-PanelInv q label p h =
    let n = p.next_view in
    let e = views-append p.tabs _ in
    on_current_tab_changed-PanelInv q _ (record {
      live_open =
          subst (IsOpen p.live) (sym e) (IsOpen-append p.live (views p.tabs) (n ∷ []) h.live_open);
      current_open = subst (IsOpen (some n)) (sym e) (view_in_last n (views p.tabs));
      fresh = subst (All (λ v. v < n + 1)) (sym e) (fresh-append n (views p.tabs) h.fresh);
      exclusive = h.exclusive;
    })

module _ (q : Toolkit) where
  removed-Held :
      (i shown : ℕ) (p : SearchPanel)
      → Held p
      → Held (remove_tab q i shown (stop_live q (view_at i p.tabs) p))
  unfolding stop_live remove_tab
  removed-Held i shown p h = elim (Bool-cases (same_view (view_at i p.tabs) p.live)) [
    | inl e ↦ rw e (record {
      live_open = tt;
      current_open = IsOpen-view_at shown (remove_at i p.tabs);
      fresh = fresh-remove i p.next_view p.tabs h.fresh;
      exclusive = h.exclusive;
    })
    | inr e ↦ rw e (record {
      live_open = IsOpen-remove i p.live p.tabs e h.live_open;
      current_open = IsOpen-view_at shown (remove_at i p.tabs);
      fresh = fresh-remove i p.next_view p.tabs h.fresh;
      exclusive = h.exclusive;
    })
  ]

  show_left-Held :
      (told : Bool) (before : Option ℕ) (p : SearchPanel)
      → Held p
      → Held (show_left q told before p)
  unfolding show_left
  show_left-Held told before p h =
      if_both Held (told || not (same_view p.current before))
        (on_current_tab_changed-PanelInv q p h).held h

  pub on_tab_close-PanelInv :
      (i shown : ℕ) (told : Bool) (p : SearchPanel)
      → PanelInv p
      → PanelInv (on_tab_close q i shown told p)
  unfolding on_tab_close
  on_tab_close-PanelInv i shown told p h =
      update_download_enabled-PanelInv _
        (show_left-Held told p.current _ (removed-Held i shown p h.held))

  pub show_tab-PanelInv : (i : ℕ) (p : SearchPanel) → PanelInv p → PanelInv (show_tab q i p)
  unfolding show_tab
  show_tab-PanelInv i p h =
      let view = view_at i p.tabs in
      if_both PanelInv (same_view view none || same_view view p.current) h (
        on_current_tab_changed-PanelInv q _ (record {
          live_open = h.held.live_open;
          current_open = IsOpen-view_at i p.tabs;
          fresh = h.held.fresh;
          exclusive = h.held.exclusive;
        }))
