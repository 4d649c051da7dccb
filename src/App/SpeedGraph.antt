-- ===== src/App/SpeedGraph.antt =====
-- app/speedgraph.h and app/speedgraph.cpp: the samples that the speed graph keeps.
pub mod Window
use amule_remote_qt.Base.{ℕ, Option, none, some, List, [], ◌∷◌, ◌++◌, ltb, if◌then◌else◌, length}

abbrev pub max_samples : ℕ
max_samples = 180

-- The members `down_` and `up_` of SpeedGraph.
pub record SpeedGraph : Type 0 where
  pub down : List ℕ
  pub up : List ℕ

-- `while (size() > kMaxSamples) removeFirst()`.
unfoldable pub trim : List ℕ → List ℕ
trim [] = []
trim (x ∷ xs) = let rest = trim xs in if ltb max_samples (length (x ∷ xs)) then rest else x ∷ xs

unfoldable pub add_sample : ℕ → ℕ → SpeedGraph → SpeedGraph
add_sample down up g = record { down = trim (g.down ++ down ∷ []); up = trim (g.up ++ up ∷ []) }

unfoldable pub clear : SpeedGraph → SpeedGraph
clear g = record { down = []; up = [] }

-- `load`, with the lists that the file holds; `none` where it cannot be opened or begins otherwise.
unfoldable pub load : Option (List ℕ × List ℕ) → SpeedGraph → SpeedGraph
load none g = g
load (some (down, up)) g = record { down = trim down; up = trim up }
