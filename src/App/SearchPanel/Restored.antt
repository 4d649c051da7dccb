-- ===== src/App/SearchPanel/Restored.antt =====
-- A search that app/searchpanel.cpp saves, loaded into the controls again.
use amule_remote_qt.Base.{
  ℕ, ◌≤◌, ◌<◌, ◌≡◌, refl, sym, ap, subst, ◌∙◌, ◌^◌, Bool, false, ◌&&◌, arith,
}
use amule_remote_qt.Ec.Bytes.{Text}
use amule_remote_qt.App.Widgets.{spin_shows-within}
use amule_remote_qt.App.SearchPanel.{Toolkit, Controls, SearchPanel, spin_maximum}
use amule_remote_qt.App.SearchPanel.Choices.{
  set_filter_text, set_negate, clamp_index, spin_value, saved_of,
}
use amule_remote_qt.App.SearchPanel.Slots.{fill_controls}
use amule_remote_qt.App.SearchPanel.Written.{
  controls-set_filter_text, controls-set_negate, controls-set_only_complete,
  controls-set_min_sources, controls-set_max_sources, controls-set_boxes,
}

-- What the widgets can show: an item's index, a number in the spin boxes' range, and not both boxes
-- checked.
pub record IsShown (c : Controls) : Type 0 where
  pub network : c.kind_index < 3
  pub file_type : c.type_index < 7
  pub least : c.min_sources ≤ spin_maximum
  pub most : c.max_sources ≤ spin_maximum
  pub exclusive : (c.glob && c.regex) ≡ false

clamp_index-shown : (i n : ℕ) → i < n → n ≤ 2 ^ 31 → clamp_index i n ≡ i
unfolding clamp_index
clamp_index-shown i n h k = ground arith

spin_value-shown : (n : ℕ) → n ≤ spin_maximum → spin_value n ≡ n
unfolding spin_value
spin_value-shown n h = spin_shows-within spin_maximum n (omega arith) h

module _ (q : Toolkit) where
  -- What can be shown is not clamped.
  in_range :
      (c : Controls) (anchor : Bool)
      → IsShown c
      → record c {
        kind_index = clamp_index c.kind_index 3;
        type_index = clamp_index c.type_index 7;
        min_sources = spin_value c.min_sources;
        max_sources = spin_value c.max_sources;
        anchor = anchor;
      }
        ≡ record c { anchor = anchor }
  in_range c anchor shown =
      rw
        (
          clamp_index-shown c.kind_index 3 shown.network (omega arith),
          clamp_index-shown c.type_index 7 shown.file_type (omega arith),
          spin_value-shown c.min_sources shown.least,
          spin_value-shown c.max_sources shown.most,
        )
        refl

  -- A search that is saved of controls which the widgets can show, glob and regex not both checked,
  -- and loaded into a panel where they are not both checked either, shows what was shown when it was
  -- saved; the box for anchoring, which is not saved, stays.
  pub controls-fill_controls :
      (name : Text) (c : Controls) (p : SearchPanel)
      → IsShown c
      → (p.controls.glob && p.controls.regex) ≡ false
      → (fill_controls q (saved_of name c) p).controls ≡ record c { anchor = p.controls.anchor }
  unfolding fill_controls saved_of
  controls-fill_controls name c p shown h =
      let base : SearchPanel = record p {
        controls = record p.controls {
          query = c.query;
          kind_index = clamp_index c.kind_index 3;
          type_index = clamp_index c.type_index 7;
        };
      } in
      let texts : SearchPanel = set_negate q c.negate (set_filter_text q c.filter_text base) in
      let written : texts.controls
          ≡ record base.controls { filter_text = c.filter_text; negate = c.negate } =
        controls-set_negate q c.negate _
        ∙ ap (λ (d : Controls). record d { negate = c.negate })
            (controls-set_filter_text q c.filter_text base) in
      controls-set_max_sources q _ _
      ∙ ap (λ (d : Controls). record d { max_sources = spin_value c.max_sources })
          (controls-set_min_sources q _ _
            ∙ ap (λ (d : Controls). record d { min_sources = spin_value c.min_sources })
                (controls-set_only_complete q _ _
                  ∙ ap (λ (d : Controls). record d { only_complete = c.only_complete })
                      (controls-set_boxes q c.glob c.regex texts shown.exclusive
                          (subst (λ (d : Controls). (d.glob && d.regex) ≡ false) (sym written) h)
                        ∙ ap (λ (d : Controls). record d { glob = c.glob; regex = c.regex })
                            written)))
      ∙ in_range c p.controls.anchor shown
