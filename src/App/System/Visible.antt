-- ===== src/App/System/Visible.antt =====
-- What shows and hides the progress bar of app/searchpanel.cpp: the worker's `searchingChanged`, and
-- nothing that the user does.
use amule_remote_qt.Base.{◌≡◌, refl, ap, ◌∙◌, Bool, true, Option, none, some, if_both, arith}
use amule_remote_qt.Ec.Bytes.{Text}
use amule_remote_qt.App.SearchFilter.{is_empty}
use amule_remote_qt.App.Tables.{is_empty as is_none}
use amule_remote_qt.App.SearchPanel.{
  Toolkit, search_requested, stop_requested, PanelSignal, SearchPanel, send,
}
use amule_remote_qt.App.SearchPanel.Choices.{saved_at, refresh_saved_combo}
use amule_remote_qt.App.SearchPanel.Slots.{on_save_search, on_delete_saved}
use amule_remote_qt.App.SearchPanel.Downloads.Stands.{
  on_download_stands, on_result_context_menu_stands,
}
use amule_remote_qt.App.SearchPanel.Events
use amule_remote_qt.App.SearchPanel.Events.{PanelEvent, panel_step}
use amule_remote_qt.App.SearchPanel.Core.{SameCore, set_panel_results-core}
use amule_remote_qt.App.SearchPanel.Core.Passive.{panel_step_passive}
use amule_remote_qt.App.MainWindow.Inputs.{is_user}

-- The progress bar is visible, or is not.
pub record Bar (b : Bool) (p : SearchPanel) : Type 0 where
  pub visible : p.progress_visible ≡ b

module _ (b : Bool) where
  pub SameCore-Bar : (o p : SearchPanel) → SameCore o p → Bar b o → Bar b p
  SameCore-Bar o p k h = record { visible = ap (λ c. c.progress_visible) k.same ∙ h.visible }

  send-Bar : (s : PanelSignal) (p : SearchPanel) → Bar b p → Bar b (send s p)
  send-Bar s p h = record { visible = h.visible }

  module _ (q : Toolkit) where
    save-Bar :
        (written : Bool) (answer : Option Text) (p : SearchPanel)
        → Bar b p
        → Bar b (on_save_search q written answer p)
    unfolding on_save_search refresh_saved_combo
    save-Bar written none p h = h
    save-Bar written (some answer) p h =
        if_both (Bar b) (is_empty (q.matching.trimmed answer)) h (record { visible = h.visible })

    delete-Bar : (written : Bool) (p : SearchPanel) → Bar b p → Bar b (on_delete_saved q written p)
    unfolding on_delete_saved refresh_saved_combo
    delete-Bar written p h =
        if_both (Bar b) (is_none (saved_at p.saved_index p.saved)) h
          (record { visible = h.visible })

    pub panel_step-Bar :
        (e : PanelEvent) (p : SearchPanel) → is_user e ≡ true → Bar b p → Bar b (panel_step q e p)
    unfolding panel_step
    panel_step-Bar Events.press_download p k h = on_download_stands (Bar b) send-Bar p h
    panel_step-Bar (Events.open_menu view row arrivals choice) p k h =
        on_result_context_menu_stands (Bar b) send-Bar q
          (λ rs r. SameCore-Bar r _ (set_panel_results-core q rs r)) view row arrivals choice p h
    panel_step-Bar (Events.press_save written answer) p k h = save-Bar written answer p h
    panel_step-Bar (Events.press_delete written) p k h = delete-Bar written p h
    panel_step-Bar (Events.progress_arrives n) p k h = absurd (ground arith)
    panel_step-Bar (Events.searching_arrives c) p k h = absurd (ground arith)
    panel_step-Bar (Events.results_arrive rs) p k h = absurd (ground arith)
    panel_step-Bar e p k h =
        panel_step_passive q (Bar b) SameCore-Bar (λ s. send-Bar (search_requested s))
          (send-Bar stop_requested) e p refl h
