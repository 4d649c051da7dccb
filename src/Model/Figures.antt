-- ===== src/Model/Figures.antt =====
-- How core/model/model.cpp writes numbers for the user: humanBytes, humanRate, humanCount and
-- humanSizePair, and Download::progress of core/model/model.h. The double of a 64-bit number is a
-- whole number, and its quotient by 1024 as often as the code divides is exact.
pub mod Units
use amule_remote_qt.Base.{
  ℕ, zero, suc, ◌+◌, ◌*◌, ◌/◌, ◌%◌, ◌^◌, ◌≡◌, ◌≤◌, ◌<◌, refl, ◌⊎◌, inl, inr, Bool, true, false,
  ◌||◌, ◌&&◌, List, [], ◌∷◌, ◌++◌, ltb, leb, ◌==◌, if◌then◌else◌, if_both, Bool-cases, arith,
}
use amule_remote_qt.Ec.Bytes.{Text, Qt, text}
use amule_remote_qt.Model.Types.{Download}

-- `%1` of a double that is the quotient of two, with so many digits after the point;
-- `static_cast<float>` of such a quotient; `%1` with one digit and `static_cast<int>` of a hundred
-- times a float; whether a double is greater than 0, and its `static_cast<quint64>`.
pub record Figures : Type 0 where
  pub quotient : ℕ → ℕ → ℕ → Text
  pub ratio : ℕ → ℕ → ℕ
  pub percent_text : ℕ → Text
  pub percent_int : ℕ → ℕ
  pub is_positive : ℕ → Bool
  pub whole : ℕ → ℕ

-- The distance of the doubles about a number: 1 below 2 ^ 53, and then twice as much for each bit.
unfoldable pub spacing : ℕ → ℕ → ℕ → ℕ
spacing zero s n = s
spacing (suc left) s n = let rest = spacing left (2 * s) n in if ltb n (2 ^ 53 * s) then s else rest

-- The multiple of the spacing that is nearest, the even one of two.
unfoldable pub round_to : ℕ → ℕ → ℕ
round_to s n =
    let q = n / s in
    let r = n % s in if ltb s (2 * r) || ((2 * r == s) && (q % 2 == 1)) then (q + 1) * s else q * s

-- `static_cast<double>` of a quint64.
unfoldable pub to_double : ℕ → ℕ
to_double n = round_to (spacing 11 1 n) n

-- The unit that the loops find for a double, where so many are left: the quotient by 1024 ^ i is
-- 1024 or more exactly if the double is 1024 ^ (i + 1) or more.
unfoldable pub unit_from : ℕ → ℕ → ℕ → ℕ
unit_from zero i v = i
unit_from (suc left) i v =
    let rest = unit_from left (suc i) v in if leb (1_024 ^ suc i) v then rest else i

-- The text of a number's label, where there are so many.
abbrev pub label_at : Text → ℕ → List Text → Text
label_at other n [] = other
label_at other zero (t ∷ ts) = t
label_at other (suc n) (t ∷ ts) = label_at other n ts

-- `kSizeUnits`.
abbrev pub size_units : List Text
size_units =
    text "B" ∷ (text "KiB" ∷ (text "MiB" ∷ (text "GiB" ∷ (text "TiB" ∷ (text "PiB" ∷ [])))))

abbrev pub size_unit : ℕ → Text
size_unit i = label_at [] i size_units

unfoldable pub scaled : Figures → ℕ → ℕ → Text
scaled f v i = f.quotient v (1_024 ^ i) 2 ++ b' ' ∷ size_unit i

unfoldable pub human_bytes : Qt → Figures → ℕ → Text
human_bytes qt f n =
    let i = unit_from 5 0 (to_double n) in
    if i == 0 then qt.decimal n ++ text " B" else scaled f (to_double n) i

unfoldable pub human_rate : Qt → Figures → ℕ → Text
human_rate qt f n = human_bytes qt f n ++ text "/s"

unfoldable pub human_count : Qt → Figures → ℕ → Text
human_count qt f n =
    let v = to_double n in
    if leb (10 ^ 9) v
    then f.quotient v (10 ^ 9) 1 ++ text "G"
    else if leb (10 ^ 6) v
    then f.quotient v (10 ^ 6) 1 ++ text "M"
    else if leb (10 ^ 3) v
    then f.quotient v (10 ^ 3) 1 ++ text "k"
    else qt.decimal n

-- `fmt` of the quotient of a double by 1024 ^ i.
unfoldable pub size_part : Qt → Figures → ℕ → ℕ → Text
size_part qt f i v =
    if i == 0
    then qt.decimal v
    else if leb (100 * 1_024 ^ i) v
    then f.quotient v (1_024 ^ i) 0
    else f.quotient v (1_024 ^ i) 1

unfoldable pub human_size_pair : Qt → Figures → ℕ → ℕ → Text
human_size_pair qt f done full =
    let i = unit_from 5 0 (to_double full) in
    size_part qt f i (to_double done)
    ++ (text " / " ++ (size_part qt f i (to_double full) ++ b' ' ∷ size_unit i))

unfoldable pub progress : Figures → Download → ℕ
progress f d =
    if d.size_full == 0 then 0 else f.ratio (to_double d.size_done) (to_double d.size_full)
