-- ===== src/App/SearchPanel/Requested/Steps.antt =====
-- Every event of the search panel in app/searchpanel.cpp asks only for downloads that are offered.
use amule_remote_qt.Base.{Bool, refl, sym, ap, subst, Option, none, some, if_both, leb}
use amule_remote_qt.Ec.Bytes.{Text}
use amule_remote_qt.App.SearchFilter.{is_empty}
use amule_remote_qt.App.Tables.{is_empty as is_none}
use amule_remote_qt.App.SearchPanel.{
  Toolkit, PanelSignal, search_requested, stop_requested, SearchPanel, send,
}
use amule_remote_qt.App.SearchPanel.Downloads.{set_progress, set_searching}
use amule_remote_qt.App.SearchPanel.Choices.{saved_at, refresh_saved_combo}
use amule_remote_qt.App.SearchPanel.Slots.{on_save_search, on_delete_saved}
use amule_remote_qt.App.SearchPanel.Events
use amule_remote_qt.App.SearchPanel.Events.{PanelEvent, panel_step}
use amule_remote_qt.App.SearchPanel.Core.{SameCore, same_core}
use amule_remote_qt.App.SearchPanel.Core.Passive.{panel_step_passive}
use amule_remote_qt.App.SearchPanel.Requested.{
  Allowed, Emits, one_emitted, SameCore-Emits, live_tabs, Asks, on_download-Asks,
}
use amule_remote_qt.App.SearchPanel.Requested.Menu.{on_result_context_menu-Asks}

module _ (o : SearchPanel) where
  SameCore-Asks : (p : SearchPanel) → SameCore o p → Asks o p
  SameCore-Asks p h = record { asks = SameCore-Emits (live_tabs o) o p h }

  -- More, after what was asked for so far.
  later-Asks : (p r : SearchPanel) → SameCore p r → Asks o p → Asks o r
  later-Asks p r k h = record {
    asks = subst (λ ss. Emits (live_tabs o) o.emitted ss) (sym (ap (λ c. c.emitted) k.same)) h.asks;
  }

  send-Asks :
      (s : PanelSignal) (p : SearchPanel) → Allowed (live_tabs o) s → Asks o p → Asks o (send s p)
  send-Asks s p k h = record { asks = one_emitted (live_tabs o) o.emitted p.emitted s k h.asks }

  module _ (q : Toolkit) where
    on_save_search-Asks :
        (written : Bool) (answer : Option Text) (p : SearchPanel)
        → Asks o p
        → Asks o (on_save_search q written answer p)
    unfolding on_save_search refresh_saved_combo
    on_save_search-Asks written none p h = h
    on_save_search-Asks written (some answer) p h =
        if_both (Asks o) (is_empty (q.matching.trimmed answer)) h (record { asks = h.asks })

    on_delete_saved-Asks :
        (written : Bool) (p : SearchPanel) → Asks o p → Asks o (on_delete_saved q written p)
    unfolding on_delete_saved refresh_saved_combo
    on_delete_saved-Asks written p h =
        if_both (Asks o) (is_none (saved_at p.saved_index p.saved)) h (record { asks = h.asks })

unasked : (p : SearchPanel) → Asks p p
unasked p = SameCore-Asks p p (same_core p)

-- Whatever happens to the panel, the downloads that it then asks for are of hashes that are not
-- null, each of a result that the live tab had when the event began, a menu's included that results
-- arrive under; without a live tab it asks for none.
pub panel_step-Asks : (q : Toolkit) (e : PanelEvent) (p : SearchPanel) → Asks p (panel_step q e p)
unfolding panel_step set_progress set_searching
panel_step-Asks q Events.press_download p = on_download-Asks p
panel_step-Asks q (Events.open_menu view row arrivals choice) p =
    on_result_context_menu-Asks q view row arrivals choice p
panel_step-Asks q (Events.press_save written answer) p =
    on_save_search-Asks p q written answer p (unasked p)
panel_step-Asks q (Events.press_delete written) p = on_delete_saved-Asks p q written p (unasked p)
panel_step-Asks q (Events.progress_arrives n) p =
    if_both (Asks p) (leb n 100) (record { asks = (unasked p).asks }) (unasked p)
panel_step-Asks q (Events.searching_arrives b) p = record { asks = (unasked p).asks }
panel_step-Asks q e p =
    panel_step_passive q (Asks p) (later-Asks p) (λ s r. send-Asks p (search_requested s) r tt)
      (λ r. send-Asks p stop_requested r tt) e p refl (unasked p)
