-- ===== src/Model/Figures/Units.antt =====
-- The unit that humanBytes of core/model/model.cpp chooses.
use amule_remote_qt.Base.{
  ℕ, zero, suc, ◌+◌, ◌^◌, ◌≡◌, ◌≤◌, ◌<◌, refl, ◌⊎◌, inl, inr, true, false, ◌∷◌, ◌++◌, ltb, leb,
  ◌==◌, Bool-cases, arith,
}
use amule_remote_qt.Ec.Bytes.{Qt, text}
use amule_remote_qt.Model.Figures.{
  Figures, spacing, round_to, to_double, unit_from, size_unit, scaled, human_bytes,
}

-- A unit is right for a double: as large as it may be, and not too large.
pub record Fits (i v : ℕ) : Type 0 where
  pub unit : i ≤ 5
  pub not_less : (i ≡ 0) ⊎ (1_024 ^ i ≤ v)
  pub not_more : (i ≡ 5) ⊎ (v < 1_024 ^ suc i)

leb→≤ : {a b : ℕ} → leb a b ≡ true → a ≤ b
leb→≤ h = ground arith

leb→< : {a b : ℕ} → leb a b ≡ false → b < a
leb→< h = ground arith

unit_from-Fits :
    (left i v : ℕ) → left + i ≡ 5 → (i ≡ 0) ⊎ (1_024 ^ i ≤ v) → Fits (unit_from left i v) v
unfolding unit_from
unit_from-Fits zero i v e h = record {
  unit = omega arith;
  not_less = h;
  not_more = inl (omega arith);
}
unit_from-Fits (suc left) i v e h = elim (Bool-cases (leb (1_024 ^ suc i) v)) [
  | inl b ↦ rw b (unit_from-Fits left (suc i) v (omega arith) (inr (leb→≤ b)))
  | inr b ↦ rw b (record { unit = omega arith; not_less = h; not_more = inr (leb→< b) })
]

-- Below 2 ^ 53 doubles are 1 apart, and each number is one.
spacing-small : (n : ℕ) → n < 2 ^ 53 → spacing 11 1 n ≡ 1
unfolding spacing
spacing-small n h = let small : ltb n (2 ^ 53) ≡ true = ground arith in rw small refl

round_to-one : (n : ℕ) → round_to 1 n ≡ n
unfolding round_to
round_to-one n = ground arith

pub to_double-exact : (n : ℕ) → n < 2 ^ 53 → to_double n ≡ n
unfolding to_double
to_double-exact n h = rw (spacing-small n h) (round_to-one n)

in_bytes : (i v : ℕ) → Fits i v → (i == 0) ≡ true → v < 1_024
in_bytes zero v h b = elim h.not_more [ inl e ↦ absurd (ground arith) | inr e ↦ e ]
in_bytes (suc i) v h b = absurd (ground arith)

positive : (i : ℕ) → (i == 0) ≡ false → 1 ≤ i
positive i b = ground arith

-- How humanBytes writes a number below 2 ^ 53: below 1024 as it is, in bytes, and else as the
-- quotient by a power of 1024, with the unit that is neither too small nor too large for it, where
-- there is one.
pub human_bytes_unit :
    (qt : Qt) (f : Figures) (n : ℕ)
    → n < 2 ^ 53
    → ((n < 1_024) × (human_bytes qt f n ≡ qt.decimal n ++ text " B"))
      ⊎ ((i : ℕ) × (1 ≤ i)
          × Fits i n
          × (human_bytes qt f n ≡ f.quotient n (1_024 ^ i) 2 ++ b' ' ∷ size_unit i))
unfolding human_bytes scaled
human_bytes_unit qt f n h =
    let i = unit_from 5 0 (to_double n) in
    let fits : Fits i n = rw (to_double-exact n h) (unit_from-Fits 5 0 n refl (inl refl)) in
    elim (Bool-cases (i == 0)) [
      | inl b ↦ inl (in_bytes i n fits b, rw b refl)
      | inr b ↦ inr (i, positive i b, fits, rw (b, to_double-exact n h) refl)
    ]
