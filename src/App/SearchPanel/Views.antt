-- ===== src/App/SearchPanel/Views.antt =====
-- The views of the tabs in app/searchpanel.cpp: what adding, changing and closing a tab does to them.
use amule_remote_qt.Base.{
  ℕ, zero, suc, ◌+◌, ◌<◌, ◌≡◌, refl, ap, ap₂, ==_iff, Bool, true, false, ◌||◌, Option, none, some,
  List, [], ◌∷◌, ◌++◌, ◌==◌, All, if_both, arith,
}
use amule_remote_qt.App.Tables.{each}
use amule_remote_qt.App.SearchPanel.{ResultTab}
use amule_remote_qt.App.SearchPanel.Tabs.{same_view, view_at, remove_at, change_tab}

abbrev pub views : List ResultTab → List ℕ
views ts = each (λ t. t.view) ts

abbrev pub view_in : ℕ → List ℕ → Bool
view_in v [] = false
view_in v (w ∷ ws) = v == w || view_in v ws

-- A view is null or is that of a tab.
abbrev pub IsOpen : Option ℕ → List ℕ → Type 0
IsOpen none vs = Unit
IsOpen (some v) vs = view_in v vs ≡ true

pub views-change_tab :
    (view : Option ℕ) (f : ResultTab → ResultTab) (ts : List ResultTab)
    → ((t : ResultTab) → (f t).view ≡ t.view)
    → views (change_tab view f ts) ≡ views ts
views-change_tab view f [] h = refl
views-change_tab view f (t ∷ ts) h =
    ap₂ ◌∷◌ (if_both (λ (u : ResultTab). u.view ≡ t.view) (same_view view (some t.view)) (h t) refl)
      (views-change_tab view f ts h)

view_in-append : (v : ℕ) (vs ws : List ℕ) → view_in v vs ≡ true → view_in v (vs ++ ws) ≡ true
view_in-append v [] ws h = absurd (ground arith)
view_in-append v (w ∷ vs) ws h = ground (arith, view_in-append v vs ws)

pub view_in_last : (v : ℕ) (vs : List ℕ) → view_in v (vs ++ v ∷ []) ≡ true
view_in_last v [] = ground arith
view_in_last v (w ∷ vs) = ground (arith, view_in_last v vs)

pub IsOpen-append : (o : Option ℕ) (vs ws : List ℕ) → IsOpen o vs → IsOpen o (vs ++ ws)
IsOpen-append none vs ws h = tt
IsOpen-append (some v) vs ws h = view_in-append v vs ws h

pub fresh-append : (n : ℕ) (vs : List ℕ) → All (λ v. v < n) vs → All (λ v. v < n + 1) (vs ++ n ∷ [])
fresh-append n [] h = (omega arith, tt)
fresh-append n (v ∷ vs) (h, hs) = (omega arith, fresh-append n vs hs)

pub views-append : (ts us : List ResultTab) → views (ts ++ us) ≡ views ts ++ views us
views-append [] us = refl
views-append (t ∷ ts) us = ap₂ ◌∷◌ refl (views-append ts us)

view_in-remove :
    (i v : ℕ) (ts : List ResultTab)
    → same_view (view_at i ts) (some v) ≡ false
    → view_in v (views ts) ≡ true
    → view_in v (views (remove_at i ts)) ≡ true
view_in-remove i v [] e h = h
view_in-remove zero v (t ∷ ts) e h = ground arith
view_in-remove (suc i) v (t ∷ ts) e h = ground (arith, view_in-remove i v ts e)

pub IsOpen-remove :
    (i : ℕ) (live : Option ℕ) (ts : List ResultTab)
    → same_view (view_at i ts) live ≡ false
    → IsOpen live (views ts)
    → IsOpen live (views (remove_at i ts))
IsOpen-remove i none ts e h = tt
IsOpen-remove i (some v) ts e h = view_in-remove i v ts e h

IsOpen-cons : (o : Option ℕ) (w : ℕ) (vs : List ℕ) → IsOpen o vs → IsOpen o (w ∷ vs)
IsOpen-cons none w vs h = tt
IsOpen-cons (some v) w vs h = ground arith

pub IsOpen-view_at : (i : ℕ) (ts : List ResultTab) → IsOpen (view_at i ts) (views ts)
IsOpen-view_at i [] = tt
IsOpen-view_at zero (t ∷ ts) = ground arith
IsOpen-view_at (suc i) (t ∷ ts) = IsOpen-cons (view_at i ts) t.view (views ts) (IsOpen-view_at i ts)

pub fresh-remove :
    (i n : ℕ) (ts : List ResultTab)
    → All (λ v. v < n) (views ts)
    → All (λ v. v < n) (views (remove_at i ts))
fresh-remove i n [] h = tt
fresh-remove zero n (t ∷ ts) h = h.1
fresh-remove (suc i) n (t ∷ ts) h = (h.0, fresh-remove i n ts h.1)

pub same_view→≡ : (a b : Option ℕ) → same_view a b ≡ true → a ≡ b
same_view→≡ none none h = refl
same_view→≡ none (some b) h = absurd (ground arith)
same_view→≡ (some a) none h = absurd (ground arith)
same_view→≡ (some a) (some b) h = ap some ((==_iff a b).0 h)
