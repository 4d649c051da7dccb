-- ===== src/App/SearchPanel/Live.antt =====
-- Where the results that arrive in app/searchpanel.cpp go: to the live tab, and to no other.
use amule_remote_qt.Base.{
  ℕ, ◌≡◌, refl, subst, ap, true, false, Option, none, some, List, [], ◌∷◌, Bool-cases, inl, inr,
  ◌⊎◌, ◌∙◌,
}
use amule_remote_qt.Model.Types.{SearchResult}
use amule_remote_qt.App.Tables.{set_results, set_rows, each}
use amule_remote_qt.App.SearchPanel.{Toolkit, ResultTab, SearchPanel}
use amule_remote_qt.App.SearchPanel.Tabs.{same_view, change_tab, tabs_of, refill, set_panel_results}
use amule_remote_qt.App.SearchPanel.Views.{same_view→≡}

tabs_of-other :
    (view live : Option ℕ) (f : ResultTab → ResultTab) (ts : List ResultTab)
    → ((t : ResultTab) → (f t).view ≡ t.view)
    → same_view view live ≡ false
    → tabs_of view (change_tab live f ts) ≡ tabs_of view ts
tabs_of-other view live f [] h e = refl
tabs_of-other view live f (t ∷ ts) h e = elim (Bool-cases (same_view live (some t.view))) [
  | inl b ↦
      rw
        (
          b,
          h t,
          subst (λ o. same_view view o ≡ false) (same_view→≡ live (some t.view) b) e,
          tabs_of-other view live f ts h e,
        )
        refl
  | inr b ↦ rw (b, tabs_of-other view live f ts h e) refl
]

pub tabs_of-changed :
    (live : Option ℕ) (f : ResultTab → ResultTab) (ts : List ResultTab)
    → ((t : ResultTab) → (f t).view ≡ t.view)
    → tabs_of live (change_tab live f ts) ≡ each f (tabs_of live ts)
tabs_of-changed live f [] h = refl
tabs_of-changed live f (t ∷ ts) h = elim (Bool-cases (same_view live (some t.view))) [
  | inl b ↦ rw (b, h t, b) refl
  | inr b ↦ rw (b, tabs_of-changed live f ts h, b) refl
]

each-each :
    {A B C : Type 0} (f : B → C) (g : A → B) (xs : List A)
    → each f (each g xs) ≡ each (λ x. f (g x)) xs
each-each f g [] = refl
each-each f g (x ∷ xs) = ap (◌∷◌ (f (g x))) (each-each f g xs)

-- Results that arrive fill the live tab, all of them in order, and leave every other tab as it is.
pub set_panel_results_live :
    (q : Toolkit) (rs : List SearchResult) (p : SearchPanel) (view : Option ℕ)
    → (same_view p.live none ≡ false)
    → (each (λ t. t.results) (tabs_of p.live (set_panel_results q rs p).tabs)
        ≡ each (λ t. rs) (tabs_of p.live p.tabs))
      × ((same_view view p.live ≡ true)
          ⊎ (tabs_of view (set_panel_results q rs p).tabs ≡ tabs_of view p.tabs))
unfolding set_panel_results refill set_results set_rows
set_panel_results_live q rs p view h = rw h (
  ap (each (λ t. t.results)) (tabs_of-changed p.live _ p.tabs (λ t. refl))
      ∙ each-each (λ t. t.results) _ (tabs_of p.live p.tabs),
  elim (Bool-cases (same_view view p.live)) [
    | inl e ↦ inl e
    | inr e ↦ inr (tabs_of-other view p.live _ p.tabs (λ t. refl) e)
  ],
)
