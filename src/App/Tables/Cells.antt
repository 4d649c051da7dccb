-- ===== src/App/Tables/Cells.antt =====
-- What a cell of the tables under app/ gives the view: the roles and values of Qt that the models
-- name, and the tests on an index that every model's `data` begins with.
pub mod Downloads
pub mod Results
pub mod Servers
pub mod Shared
pub mod Sources
use amule_remote_qt.Base.{ℕ, zero, suc, ◌≡◌, refl, List, [], ◌∷◌}
use amule_remote_qt.Ec.Bytes.{Text, Qt}
use amule_remote_qt.Model.Figures.{Figures}

pub data Role : Type 0 where
  display_role user_role alignment_role progress_role any_role : Role

-- A QVariant: invalid, a text, a number, a float, or an alignment (centred vertically).
pub data Variant : Type 0 where
  invalid : Variant
  text_of : Text → Variant
  number float : ℕ → Variant
  align_right align_left : Variant

-- The cell of a row, invalid past the last one.
abbrev pub cell_at : {A : Type 0} → (A → Variant) → ℕ → List A → Variant
cell_at cell row [] = invalid
cell_at cell zero (x ∷ xs) = cell x
cell_at cell (suc row) (x ∷ xs) = cell_at cell row xs

-- What the cells take from Qt: the core's conversions, the formats of doubles, the translation of a
-- text, and QString::arg with one text.
pub record Screen : Type 0 where
  pub qt : Qt
  pub figures : Figures
  pub tr : Text → Text
  pub arg : Text → Text → Text
