-- ===== src/Ec/Bytes/Bounds.antt =====
-- Bounds on what is read of bytes: numbers, cuts and filled arrays.
use native.Mathlib.Nat.{pow-suc, mul_comm, mul_assoc}
use amule_remote_qt.Base.{
  ℕ, zero, suc, ◌+◌, ◌*◌, ◌^◌, ◌≤◌, ◌<◌, ◌≡◌, refl, sym, ap, ◌∙◌, arith, ◌∷◌, [], ◌++◌, length,
  take, drop, All, replicate, length-append, length-take,
}
use amule_remote_qt.Ec.Bytes.{Bytes, IsByte, from_big_endian, from_big_endian_after, zero_filled}

scaled : (a b p : ℕ) → a ≤ b → a * p ≤ b * p
scaled a b p h = grind arith

from_big_endian_after-lt :
    (bs : Bytes) (acc : ℕ)
    → All IsByte bs
    → from_big_endian_after acc bs < suc acc * 256 ^ length bs
from_big_endian_after-lt [] acc h = omega arith
from_big_endian_after-lt (b ∷ bs) acc (h, hs) =
    let rest = from_big_endian_after-lt bs (acc * 256 + b) hs in
    let step = scaled (suc (acc * 256 + b)) (suc acc * 256) (256 ^ length bs) (omega arith) in
    let power : suc acc * 256 ^ suc (length bs) ≡ suc acc * 256 * 256 ^ length bs =
      ap (◌*◌ (suc acc)) (pow-suc 256 (length bs) ∙ mul_comm (256 ^ length bs) 256)
      ∙ sym (mul_assoc (suc acc) 256 (256 ^ length bs)) in
    omega (arith, rest, step, power)

pub from_big_endian-lt :
    (w : ℕ) (bs : Bytes) → All IsByte bs → length bs ≡ w → from_big_endian bs < 256 ^ w
unfolding from_big_endian
from_big_endian-lt w bs h e = rw (← e) (omega (arith, from_big_endian_after-lt bs 0 h))

pub All-take : (n : ℕ) (bs : Bytes) → All IsByte bs → All IsByte (take n bs)
All-take zero bs h = tt
All-take (suc n) [] h = tt
All-take (suc n) (b ∷ bs) (h, hs) = (h, All-take n bs hs)

pub All-drop : (n : ℕ) (bs : Bytes) → All IsByte bs → All IsByte (drop n bs)
All-drop zero bs h = h
All-drop (suc n) [] h = tt
All-drop (suc n) (b ∷ bs) (h, hs) = All-drop n bs hs

All-zeros : (n : ℕ) → All IsByte (replicate n 0)
All-zeros zero = tt
All-zeros (suc n) = (omega arith, All-zeros n)

All-append : (bs cs : Bytes) → All IsByte bs → All IsByte cs → All IsByte (bs ++ cs)
All-append [] cs h k = k
All-append (b ∷ bs) cs (h, hs) k = (h, All-append bs cs hs k)

length-zeros : (n : ℕ) → length {A = ℕ} (replicate n 0) ≡ n
length-zeros zero = refl
length-zeros (suc n) = omega (arith, length-zeros n)

pub length-zero_filled : (n : ℕ) (bs : Bytes) → length (zero_filled n bs) ≡ n
unfolding zero_filled
length-zero_filled n bs =
    length-take n (bs ++ replicate n 0)
      (omega (arith, length-append bs (replicate n 0), length-zeros n))

pub zero_filled-lt :
    (w : ℕ) (bs : Bytes) → All IsByte bs → from_big_endian (zero_filled w bs) < 256 ^ w
zero_filled-lt w bs h =
    from_big_endian-lt w (zero_filled w bs)
      (unfold zero_filled in (All-take w _ (All-append bs (replicate w 0) h (All-zeros w))))
      (length-zero_filled w bs)
