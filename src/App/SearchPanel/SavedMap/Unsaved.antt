-- ===== src/App/SearchPanel/SavedMap/Unsaved.antt =====
-- The events of app/searchpanel.cpp that have nothing to do with the saved searches.
use amule_remote_qt.Base.{◌≡◌, refl, ap, ◌∙◌}
use amule_remote_qt.App.SearchPanel.{PanelSignal, SearchPanel, send}
use amule_remote_qt.App.SearchPanel.Core.{SameCore}

-- The saved searches, their file and their names in the combo box are left alone.
pub record SameSaved (o p : SearchPanel) : Type 0 where
  pub same_saved : p.saved ≡ o.saved
  pub same_stored : p.stored ≡ o.stored
  pub same_names : p.saved_names ≡ o.saved_names

module _ (o : SearchPanel) where
  pub SameCore-SameSaved : (p r : SearchPanel) → SameCore p r → SameSaved o p → SameSaved o r
  SameCore-SameSaved p r k h = record {
    same_saved = ap (λ c. c.saved) k.same ∙ h.same_saved;
    same_stored = ap (λ c. c.stored) k.same ∙ h.same_stored;
    same_names = ap (λ c. c.saved_names) k.same ∙ h.same_names;
  }

  pub send-SameSaved : (s : PanelSignal) (p : SearchPanel) → SameSaved o p → SameSaved o (send s p)
  send-SameSaved s p h = record {
    same_saved = h.same_saved;
    same_stored = h.same_stored;
    same_names = h.same_names;
  }

pub unsaved : (p : SearchPanel) → SameSaved p p
unsaved p = record { same_saved = refl; same_stored = refl; same_names = refl }
