-- ===== src/App/SearchPanel/SavedMap/Steps.antt =====
-- Every event of the search panel in app/searchpanel.cpp is a step of the map of saved searches, and
-- the file has what the panel has.
use amule_remote_qt.Base.{
  Bool, true, ◌≡◌, refl, sym, ap, subst, ◌∙◌, none, some, ◌⊎◌, if◌then◌else◌, if_both, Bool-cases,
  inl, inr, leb,
}
use amule_remote_qt.Ec.Bytes.{Text}
use amule_remote_qt.App.SearchFilter.{is_empty}
use amule_remote_qt.App.Tables.{is_empty as is_none}
use amule_remote_qt.App.SavedSearches.{save}
use amule_remote_qt.App.SearchPanel.{Toolkit, search_requested, stop_requested, SearchPanel}
use amule_remote_qt.App.SearchPanel.Downloads.{set_progress, set_searching}
use amule_remote_qt.App.SearchPanel.Choices.{saved_at, saved_of, remove_saved, refresh_saved_combo}
use amule_remote_qt.App.SearchPanel.Slots.{on_save_search, on_load_saved, on_delete_saved}
use amule_remote_qt.App.SearchPanel.Events
use amule_remote_qt.App.SearchPanel.Events.{PanelEvent, panel_step}
use amule_remote_qt.App.SearchPanel.Downloads.Stands.{
  on_download_stands, on_result_context_menu_stands,
}
use amule_remote_qt.App.SearchPanel.Core.{set_panel_results-core}
use amule_remote_qt.App.SearchPanel.Core.Passive.{panel_step_passive}
use amule_remote_qt.App.SearchPanel.SavedMap.{SavedMap, put, DistinctNames}
use amule_remote_qt.App.SearchPanel.SavedMap.Refines.{
  names, forget_chosen, Changes, store_search-Changes, remove_saved-Changes, remove_saved-absent,
}
use amule_remote_qt.App.SearchPanel.SavedMap.Unsaved.{
  SameSaved, SameCore-SameSaved, send-SameSaved, unsaved,
}

-- The combo box lists the saved searches, which have names of their own.
pub record Listed (p : SearchPanel) : Type 0 where
  pub distinct : DistinctNames p.saved
  pub named : p.saved_names ≡ names p.saved

-- What each event is to do to the map of saved searches.
abbrev pub map_step : Toolkit → PanelEvent → SearchPanel → SavedMap → SavedMap
map_step q (Events.press_save written (some answer)) p =
    let name = q.matching.trimmed answer in
    if is_empty name then (λ m. m) else put (saved_of name p.controls)
map_step q (Events.press_delete written) p = forget_chosen p.saved_index p.saved_names
map_step q _ p = λ m. m

-- Whether the file could be written, where an event writes it.
abbrev pub is_written : PanelEvent → Bool
is_written (Events.press_save written answer) = written
is_written (Events.press_delete written) = written
is_written _ = true

-- What an event does: the map changes by `f`, and the file is left alone or written anew.
pub record Effect (q : Toolkit) (written : Bool) (f : SavedMap → SavedMap) (o p : SearchPanel)
    : Type 0 where
  pub changes : Changes f o.saved p.saved
  pub named : p.saved_names ≡ names p.saved
  pub file :
      ((p.saved ≡ o.saved) × (p.stored ≡ o.stored))
      ⊎ (p.stored ≡ save q.format written o.stored p.saved)

module _ (q : Toolkit) where
  unchanged-Effect :
      (b : Bool) (o p : SearchPanel) → SameSaved o p → Listed o → Effect q b (λ m. m) o p
  unchanged-Effect b o p k h = record {
    changes =
        subst (Changes (λ m. m) o.saved) (sym k.same_saved)
          (record { changed = refl; distinct = h.distinct });
    named = k.same_names ∙ h.named ∙ ap names (sym k.same_saved);
    file = inl (k.same_saved, k.same_stored);
  }

  on_save_search-Effect :
      (written : Bool) (answer : Text) (p : SearchPanel)
      → Listed p
      → Effect q written
          (map_step q (Events.press_save written (some answer)) p)
          p
          (on_save_search q written (some answer) p)
  unfolding on_save_search refresh_saved_combo
  on_save_search-Effect written answer p h =
      elim (Bool-cases (is_empty (q.matching.trimmed answer))) [
        | inl e ↦ rw e (unchanged-Effect written p p (unsaved p) h)
        | inr e ↦ rw e (record {
          changes =
              store_search-Changes (saved_of (q.matching.trimmed answer) p.controls) p.saved
                h.distinct;
          named = refl;
          file = inr refl;
        })
      ]

  on_cancel-Effect :
      (written : Bool) (p : SearchPanel)
      → Listed p
      → Effect q written (λ m. m) p (on_save_search q written none p)
  unfolding on_save_search
  on_cancel-Effect written p h = unchanged-Effect written p p (unsaved p) h

  on_delete_saved-Effect :
      (written : Bool) (p : SearchPanel)
      → Listed p
      → Effect q written
          (map_step q (Events.press_delete written) p)
          p
          (on_delete_saved q written p)
  unfolding on_delete_saved refresh_saved_combo
  on_delete_saved-Effect written p h =
      let removed : Changes (map_step q (Events.press_delete written) p) p.saved
          (remove_saved p.saved_index p.saved) =
        subst
          (λ ts.
            Changes (forget_chosen p.saved_index ts) p.saved (remove_saved p.saved_index p.saved))
          (sym h.named) (remove_saved-Changes p.saved_index p.saved h.distinct) in
      elim (Bool-cases (is_none (saved_at p.saved_index p.saved))) [
        | inl e ↦ rw e (record {
          changes =
              subst (Changes (map_step q (Events.press_delete written) p) p.saved)
                (remove_saved-absent p.saved_index p.saved e) removed;
          named = h.named;
          file = inl (refl, refl);
        })
        | inr e ↦ rw e (record { changes = removed; named = refl; file = inr refl })
      ]

pub panel_step-Effect :
    (q : Toolkit) (e : PanelEvent) (p : SearchPanel)
    → Listed p
    → Effect q (is_written e) (map_step q e p) p (panel_step q e p)
unfolding panel_step on_load_saved set_progress set_searching
panel_step-Effect q Events.press_download p h =
    unchanged-Effect q true p _ (on_download_stands (SameSaved p) (send-SameSaved p) p (unsaved p))
      h
panel_step-Effect q (Events.open_menu view row arrivals choice) p h =
    unchanged-Effect q true p _
      (on_result_context_menu_stands (SameSaved p) (send-SameSaved p) q
        (λ rs r. SameCore-SameSaved p r _ (set_panel_results-core q rs r)) view row arrivals choice
        p (unsaved p))
      h
panel_step-Effect q (Events.press_save written none) p h = on_cancel-Effect q written p h
panel_step-Effect q (Events.press_save written (some answer)) p h =
    on_save_search-Effect q written answer p h
panel_step-Effect q (Events.press_delete written) p h = on_delete_saved-Effect q written p h
panel_step-Effect q (Events.progress_arrives n) p h =
    unchanged-Effect q true p _
      (if_both (SameSaved p) (leb n 100)
        (record { same_saved = refl; same_stored = refl; same_names = refl }) (unsaved p))
      h
panel_step-Effect q (Events.searching_arrives b) p h =
    unchanged-Effect q true p _
      (record { same_saved = refl; same_stored = refl; same_names = refl }) h
panel_step-Effect q e p h =
    unchanged-Effect q true p _
      (panel_step_passive q (SameSaved p) (SameCore-SameSaved p)
        (λ s. send-SameSaved p (search_requested s)) (send-SameSaved p stop_requested) e p refl
        (unsaved p))
      h
