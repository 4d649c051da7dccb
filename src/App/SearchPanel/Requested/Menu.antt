-- ===== src/App/SearchPanel/Requested/Menu.antt =====
-- What the menu of a result in app/searchpanel.cpp asks for, with the results that arrive while it is
-- open.
use amule_remote_qt.Base.{
  ℕ, ◌≡◌, refl, sym, subst, ◌∙◌, true, false, ◌&&◌, not, ◌⊎◌, inl, inr, Option, none, List, [], ◌∷◌,
  All, if_both, Bool-cases, arith,
}
use amule_remote_qt.Ec.Bytes.{Text}
use amule_remote_qt.Ec.Tag.{Hash16}
use amule_remote_qt.Model.Types.{SearchResult}
use amule_remote_qt.App.Tables.{is_empty, bytes_equal, same_layout, set_results, set_rows, each}
use amule_remote_qt.App.Tables.Layout.{bytes_equal_iff}
use amule_remote_qt.App.SearchPanel.{
  Toolkit, ResultTab, PanelSignal, search_requested, stop_requested, download_requested,
  SearchPanel,
}
use amule_remote_qt.App.SearchPanel.Tabs.{
  same_view, tabs_of, is_selected, refill, set_panel_results,
}
use amule_remote_qt.App.SearchPanel.Downloads
use amule_remote_qt.App.SearchPanel.Downloads.{
  request_rows, request_selected, request_clicked, on_download, MenuChoice, results_meanwhile,
  on_result_context_menu,
}
use amule_remote_qt.App.SearchPanel.Live.{tabs_of-changed}
use amule_remote_qt.App.SearchPanel.Requested.{
  listed_hash, offered, Allowed, Emits, none_emitted, tabs_of-same, request_selected-Emits,
  request_clicked-Emits, live_tabs, Asks,
}

-- The tab `ts` offers no hash that `os` does not.
record Within (os ts : List ResultTab) : Type 0 where
  within : (h : Hash16) → offered h ts ≡ true → offered h os ≡ true

-- Of the tab `ts` nothing is selected, or it offers only what `os` does.
abbrev Confined : List ResultTab → List ResultTab → Type 0
Confined os ts = (is_selected ts ≡ false) ⊎ Within os ts

-- A panel `p` that results have come to since `o`.
record Meanwhile (o p : SearchPanel) : Type 0 where
  emitted : p.emitted ≡ o.emitted
  confined : Confined (live_tabs o) (live_tabs p)

Emits-Within :
    (os ts : List ResultTab) (a b : List PanelSignal) → Within os ts → Emits ts a b → Emits os a b
Emits-Within os ts a b w e = record {
  latest = e.latest;
  follows = e.follows;
  allowed = all_allowed e.latest e.allowed;
}
  where
    is_allowed : (s : PanelSignal) → Allowed ts s → Allowed os s
    is_allowed (download_requested h) (hash, k) = (hash, w.within h k)
    is_allowed (search_requested params) k = tt
    is_allowed stop_requested k = tt

    all_allowed : (ss : List PanelSignal) → All (Allowed ts) ss → All (Allowed os) ss
    all_allowed [] k = tt
    all_allowed (s ∷ ss) (k, ks) = (is_allowed s k, all_allowed ss ks)

-- An update in place lists the hashes that were listed.
listed_hash-same :
    (h : Hash16) (next rows : List SearchResult)
    → same_layout (λ a b. bytes_equal a.hash b.hash) next rows ≡ true
    → listed_hash h next ≡ listed_hash h rows
unfolding same_layout
listed_hash-same h [] [] e = refl
listed_hash-same h [] (b ∷ bs) e = absurd (cc)
listed_hash-same h (a ∷ xs) [] e = absurd (cc)
listed_hash-same h (a ∷ xs) (b ∷ bs) e =
    let first : bytes_equal a.hash b.hash ≡ true = ground arith in
    rw ((bytes_equal_iff a.hash b.hash).0 first, listed_hash-same h xs bs (ground arith)) refl

refilled-Confined :
    (title : ResultTab → Text) (rs : List SearchResult) (os ts : List ResultTab)
    → Confined os ts
    → Confined os (each (λ t. record (refill rs t) { title = title t }) ts)
unfolding refill set_results set_rows
refilled-Confined title rs os [] c = inl refl
refilled-Confined title rs os (t ∷ ts) c =
    elim (Bool-cases
      (same_layout (λ a b. bytes_equal a.hash b.hash) rs t.results && not (is_empty rs))) [
        | inl e ↦ elim c [
          | inl unselected ↦ inl (rw (refill, e) unselected)
          | inr w ↦ inr (record {
            within = λ h k. w.within h (sym (listed_hash-same h rs t.results (ground arith)) ∙ k);
          })
        ]
        | inr e ↦ inl (rw (refill, e) refl)
      ]

set_panel_results-Meanwhile :
    (q : Toolkit) (o : SearchPanel) (rs : List SearchResult) (p : SearchPanel)
    → Meanwhile o p
    → Meanwhile o (set_panel_results q rs p)
unfolding set_panel_results refill
set_panel_results-Meanwhile q o rs p m = elim (Bool-cases (same_view p.live none)) [
  | inl e ↦ rw e m
  | inr e ↦ rw e (record {
    emitted = m.emitted;
    confined =
        subst (Confined (live_tabs o)) (sym (tabs_of-changed p.live _ p.tabs (λ t. refl)))
          (refilled-Confined _ rs (live_tabs o) (live_tabs p) m.confined);
  })
]

results_meanwhile-Meanwhile :
    (q : Toolkit) (o : SearchPanel) (arrivals : List (List SearchResult)) (p : SearchPanel)
    → Meanwhile o p
    → Meanwhile o (results_meanwhile q arrivals p)
unfolding results_meanwhile
results_meanwhile-Meanwhile q o [] p m = m
results_meanwhile-Meanwhile q o (rs ∷ rss) p m =
    results_meanwhile-Meanwhile q o rss _ (set_panel_results-Meanwhile q o rs p m)

request_selected-Confined :
    (os ts : List ResultTab) (p : SearchPanel)
    → Confined os ts
    → Emits os p.emitted (request_selected ts p).emitted
unfolding request_rows
request_selected-Confined os [] p c = none_emitted os p.emitted
request_selected-Confined os (t ∷ ts) p (inl e) = unselected t.selected e
  where
    unselected :
        (rows : List ℕ)
        → not (is_empty rows) ≡ false
        → Emits os p.emitted (request_rows rows t.results p).emitted
    unselected [] k = none_emitted os p.emitted
    unselected (row ∷ rows) k = absurd (cc)
request_selected-Confined os (t ∷ ts) p (inr w) =
    Emits-Within os (t ∷ ts) p.emitted _ w (request_selected-Emits (t ∷ ts) p)

module _ (o p : SearchPanel) (m : Meanwhile o p) where
  unasked : Asks o p
  unasked = record {
    asks =
        subst (λ ss. Emits (live_tabs o) o.emitted ss) (sym m.emitted)
          (none_emitted (live_tabs o) o.emitted);
  }

  on_download-Meanwhile : Asks o (on_download p)
  unfolding on_download
  on_download-Meanwhile = elim (Bool-cases (same_view p.current p.live)) [
    | inl e ↦
        rw (e, tabs_of-same p.current p.live p.tabs e)
          (record {
            asks =
                subst (λ ss. Emits (live_tabs o) ss (request_selected (live_tabs p) p).emitted)
                  m.emitted (request_selected-Confined (live_tabs o) (live_tabs p) p m.confined);
          })
    | inr e ↦ rw e unasked
  ]

  request_clicked-Meanwhile :
      (row : ℕ) (view : Option ℕ)
      → same_view view o.live ≡ true
      → Asks o (request_clicked row (tabs_of view o.tabs) p)
  request_clicked-Meanwhile row view e = rw (tabs_of-same view o.live o.tabs e) (record {
    asks =
        subst (λ ss. Emits (live_tabs o) ss (request_clicked row (live_tabs o) p).emitted) m.emitted
          (request_clicked-Emits row (live_tabs o) p);
  })

results_meanwhile-arrived :
    (q : Toolkit) (arrivals : List (List SearchResult)) (p : SearchPanel)
    → Meanwhile p (results_meanwhile q arrivals p)
results_meanwhile-arrived q arrivals p =
    results_meanwhile-Meanwhile q p arrivals p
      (record { emitted = refl; confined = inr (record { within = λ h k. k }) })

pub on_result_context_menu-Asks :
    (q : Toolkit) (view : Option ℕ) (row : ℕ) (arrivals : List (List SearchResult))
    (choice : MenuChoice) (p : SearchPanel)
    → Asks p (on_result_context_menu q view row arrivals choice p)
unfolding on_result_context_menu
on_result_context_menu-Asks q view row arrivals Downloads.download p =
    let m = results_meanwhile-arrived q arrivals p in
    elim (Bool-cases (same_view view p.live)) [
      | inl e ↦ rw e (request_clicked-Meanwhile p _ m row view e)
      | inr e ↦ rw e (unasked p _ m)
    ]
on_result_context_menu-Asks q view row arrivals Downloads.download_selected p =
    let m = results_meanwhile-arrived q arrivals p in
    if_both (Asks p) (same_view view p.live) (on_download-Meanwhile p _ m) (unasked p _ m)
on_result_context_menu-Asks q view row arrivals _ p =
    unasked p _ (results_meanwhile-arrived q arrivals p)
