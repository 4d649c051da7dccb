-- ===== src/App/SearchPanel/SavedMap/Histories.antt =====
-- The saved searches of app/searchpanel.cpp over whole histories: the map that they are, and the
-- file that the next start reads.
use amule_remote_qt.Base.{ℕ, true, ◌≡◌, refl, sym, ap, ◌∙◌, ◌⊎◌, inl, inr, List, [], ◌∷◌, All, map}
use amule_remote_qt.Ec.Bytes.{Bytes}
use amule_remote_qt.App.SavedSearches.{save, load}
use amule_remote_qt.App.SavedSearches.Reload.{IsFormat, IsStorable, cleaned, load-save}
use amule_remote_qt.App.SearchPanel.{Toolkit, SearchPanel}
use amule_remote_qt.App.SearchPanel.Tabs.{update_download_enabled}
use amule_remote_qt.App.SearchPanel.Choices.{refresh_saved_combo}
use amule_remote_qt.App.SearchPanel.Slots.{new_panel}
use amule_remote_qt.App.SearchPanel.Events.{PanelEvent, panel_step, panel_run}
use amule_remote_qt.App.SearchPanel.SavedMap.{SavedMap, find_saved, DistinctNames}
use amule_remote_qt.App.SearchPanel.SavedMap.Steps.{is_written, Listed, map_step, panel_step-Effect}

-- What a history is to do to the map of saved searches.
abbrev pub map_run : Toolkit → List PanelEvent → SearchPanel → SavedMap → SavedMap
map_run q [] p m = m
map_run q (e ∷ es) p m = map_run q es (panel_step q e p) (map_step q e p m)

-- The file reads as the saved searches, or is what saving them writes.
abbrev pub InFile : Toolkit → SearchPanel → Type 0
InFile q p =
    (load q.format p.stored ≡ p.saved)
    ⊎ ((before : Bytes) × (p.stored ≡ save q.format true before p.saved))

module _ (q : Toolkit) where
  step-Listed : (e : PanelEvent) (p : SearchPanel) → Listed p → Listed (panel_step q e p)
  step-Listed e p h =
      let k = panel_step-Effect q e p h in record { distinct = k.changes.distinct; named = k.named }

  find_saved-panel_run :
      (es : List PanelEvent) (p : SearchPanel)
      → Listed p
      → find_saved (panel_run q es p).saved ≡ map_run q es p (find_saved p.saved)
  unfolding panel_run
  find_saved-panel_run [] p h = refl
  find_saved-panel_run (e ∷ es) p h =
      find_saved-panel_run es _ (step-Listed e p h)
      ∙ ap (map_run q es (panel_step q e p)) (panel_step-Effect q e p h).changes.changed

  file_stands :
      (o p : SearchPanel)
      → ((p.saved ≡ o.saved) × (p.stored ≡ o.stored))
        ⊎ (p.stored ≡ save q.format true o.stored p.saved)
      → InFile q o
      → InFile q p
  file_stands o p (inl (e, f)) (inl h) = inl (ap (load q.format) f ∙ h ∙ sym e)
  file_stands o p (inl (e, f)) (inr (before, h)) =
      inr (before, f ∙ h ∙ ap (save q.format true before) (sym e))
  file_stands o p (inr k) h = inr (o.stored, k)

  panel_run-InFile :
      (es : List PanelEvent) (p : SearchPanel)
      → All (λ e. is_written e ≡ true) es
      → Listed p
      → InFile q p
      → InFile q (panel_run q es p)
  unfolding panel_run
  panel_run-InFile [] p ws h k = k
  panel_run-InFile (e ∷ es) p (w, ws) h k =
      panel_run-InFile es _ ws (step-Listed e p h)
        (file_stands p (panel_step q e p) (rw w at (panel_step-Effect q e p h).file) k)

  new_panel-Listed : (file : Bytes) → DistinctNames (load q.format file) → Listed (new_panel q file)
  unfolding new_panel update_download_enabled refresh_saved_combo
  new_panel-Listed file h = record { distinct = h; named = refl }

  saved-new_panel : (file : Bytes) → (new_panel q file).saved ≡ load q.format file
  unfolding new_panel update_download_enabled refresh_saved_combo
  saved-new_panel file = refl

  new_panel-InFile : (file : Bytes) → InFile q (new_panel q file)
  unfolding new_panel update_download_enabled refresh_saved_combo
  new_panel-InFile file = inl refl

  -- Over any history of a panel whose file names no search twice, the saved searches are the map
  -- that the specification gives: saving puts the controls in under the trimmed name, deleting
  -- forgets the name chosen in the combo box, and no other event changes the map.
  pub find_saved-panel_run-new_panel :
      (file : Bytes) (es : List PanelEvent)
      → DistinctNames (load q.format file)
      → find_saved (panel_run q es (new_panel q file)).saved
        ≡ map_run q es (new_panel q file) (find_saved (load q.format file))
  find_saved-panel_run-new_panel file es h =
      find_saved-panel_run es (new_panel q file) (new_panel-Listed file h)
      ∙ ap (λ ss. map_run q es (new_panel q file) (find_saved ss)) (saved-new_panel file)

  module _ (IsSolid : ℕ → Type 0) (f : IsFormat q.format IsSolid) where
    -- A panel that is started again, after any history of one whose file names no search twice, has
    -- the saved searches of the former, or has them with tabs and line ends turned to spaces, where
    -- the file could be written whenever it was, they can be stored, and the formats behave as Qt
    -- documents them.
    pub saved-new_panel-panel_run :
        (file : Bytes) (es : List PanelEvent)
        → DistinctNames (load q.format file)
        → All (λ e. is_written e ≡ true) es
        → All (IsStorable q.format IsSolid) (panel_run q es (new_panel q file)).saved
        → let p = panel_run q es (new_panel q file) in
          ((new_panel q p.stored).saved ≡ p.saved)
          ⊎ ((new_panel q p.stored).saved ≡ map (cleaned q.format IsSolid) p.saved)
    saved-new_panel-panel_run file es h ws storable =
        let p = panel_run q es (new_panel q file) in
        elim (panel_run-InFile es (new_panel q file) ws (new_panel-Listed file h)
          (new_panel-InFile file)) [
            | inl e ↦ inl (saved-new_panel p.stored ∙ e)
            | inr (before, e) ↦ inr (
                saved-new_panel p.stored
                ∙ ap (load q.format) e
                ∙ load-save q.format IsSolid f before p.saved storable)
          ]
