-- ===== src/App/Widgets.antt =====
-- How the widgets of app/ show a number: QSpinBox::setValue with `static_cast<int>`, and
-- QComboBox::setCurrentIndex.
use amule_remote_qt.Base.{
  ℕ, ◌%◌, ◌^◌, ◌≤◌, ◌<◌, ◌≡◌, Option, none, some, leb, ltb, if◌then◌else◌, arith,
}

-- What a spin box from 0 to a maximum shows: a negative `int` is brought to 0.
unfoldable pub spin_shows : ℕ → ℕ → ℕ
spin_shows maximum n =
    let i = n % 2 ^ 32 in if leb (2 ^ 31) i then 0 else if ltb maximum i then maximum else i

-- The index of a combo box: none (-1) where it has no item at that index.
unfoldable pub combo_shows : ℕ → ℕ → Option ℕ
combo_shows count n = let i = n % 2 ^ 32 in if ltb i count then some i else none

-- A number within the range is shown as it is.
pub spin_shows-within : (maximum n : ℕ) → maximum < 2 ^ 31 → n ≤ maximum → spin_shows maximum n ≡ n
unfolding spin_shows
spin_shows-within maximum n h k = ground arith

pub combo_shows-within : (count n : ℕ) → count < 2 ^ 31 → n < count → combo_shows count n ≡ some n
unfolding combo_shows
combo_shows-within count n h k = ground arith
