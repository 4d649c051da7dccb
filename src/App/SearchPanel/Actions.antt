-- ===== src/App/SearchPanel/Actions.antt =====
-- The downloads, the selections and the progress of app/searchpanel.cpp keep the panel's invariant.
use amule_remote_qt.Base.{ℕ, ◌≡◌, refl, Bool, false, ◌&&◌, Option, some, List, if_both, leb}
use amule_remote_qt.Ec.Bytes.{Bytes, Text}
use amule_remote_qt.App.SavedSearches.{SavedSearch}
use amule_remote_qt.App.SearchPanel.{Controls, PanelSignal, SearchPanel, send}
use amule_remote_qt.App.SearchPanel.Downloads.{set_progress, set_searching, select_rows, set_anchor}
use amule_remote_qt.App.SearchPanel.Views.{views-change_tab}
use amule_remote_qt.App.SearchPanel.Invariant.{
  PanelInv, keeps-Held, update_anchor-PanelInv, update_download_enabled-PanelInv,
}

-- A change of anything but the tabs, the button and the two boxes does not matter.
pub other-PanelInv :
    (p : SearchPanel) {c : Controls} {n : ℕ} {b d : Bool} {ss : List SavedSearch} {file : Bytes}
    {names : List Text} {i : Option ℕ} {signals : List PanelSignal}
    → (c.glob && c.regex) ≡ false
    → PanelInv p
    → PanelInv (record p {
      controls = c;
      progress = n;
      progress_visible = b;
      saved = ss;
      stored = file;
      saved_names = names;
      saved_index = i;
      saved_enabled = d;
      emitted = signals;
    })
other-PanelInv p e h = record {
  held = record {
    live_open = h.held.live_open;
    current_open = h.held.current_open;
    fresh = h.held.fresh;
    exclusive = e;
  };
  button = h.button;
}

pub send-PanelInv : (s : PanelSignal) (p : SearchPanel) → PanelInv p → PanelInv (send s p)
send-PanelInv s p h = other-PanelInv p h.held.exclusive h

pub select_rows-PanelInv :
    (view : ℕ) (rows : List ℕ) (p : SearchPanel) → PanelInv p → PanelInv (select_rows view rows p)
unfolding select_rows
select_rows-PanelInv view rows p h = update_anchor-PanelInv (some view) _ (
    update_download_enabled-PanelInv _
      (keeps-Held p _ (views-change_tab (some view) _ p.tabs (λ t. refl)) h.held))

pub set_anchor-PanelInv : (on : Bool) (p : SearchPanel) → PanelInv p → PanelInv (set_anchor on p)
unfolding set_anchor
set_anchor-PanelInv on p h =
    update_anchor-PanelInv p.current _ (other-PanelInv p h.held.exclusive h)

pub set_progress-PanelInv : (n : ℕ) (p : SearchPanel) → PanelInv p → PanelInv (set_progress n p)
unfolding set_progress
set_progress-PanelInv n p h = if_both PanelInv (leb n 100) (other-PanelInv p h.held.exclusive h) h

pub set_searching-PanelInv :
    (b : Bool) (p : SearchPanel) → PanelInv p → PanelInv (set_searching b p)
unfolding set_searching
set_searching-PanelInv b p h = other-PanelInv p h.held.exclusive h
