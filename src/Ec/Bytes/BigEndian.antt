-- ===== src/Ec/Bytes/BigEndian.antt =====
-- Laws of big-endian numbers and of the byte strings that end at a NUL.
use native.Mathlib.Nat.{pow-suc}
use amule_remote_qt.Base.{
  ℕ, zero, suc, ◌+◌, ◌*◌, ◌/◌, ◌%◌, ◌^◌, ◌<◌, ◌≡◌, refl, ap, ◌∙◌, ◌≢◌, [], ◌∷◌, ◌++◌, arith, length,
  take, replicate, All, length-append, take-append,
}
use amule_remote_qt.Ec.Bytes.{
  Bytes, big_endian, from_big_endian, from_big_endian_after, zero_filled, before_nul,
}

pub length-big_endian : (w v : ℕ) → length (big_endian w v) ≡ w
unfolding big_endian
length-big_endian zero v = refl
length-big_endian (suc w) v =
    omega
      (arith, length-append (big_endian w (v / 256)) (v % 256 ∷ []), length-big_endian w (v / 256))

from_big_endian_after-snoc :
    (bs : Bytes) (acc b : ℕ)
    → from_big_endian_after acc (bs ++ b ∷ []) ≡ from_big_endian_after acc bs * 256 + b
from_big_endian_after-snoc [] acc b = refl
from_big_endian_after-snoc (x ∷ bs) acc b = from_big_endian_after-snoc bs (acc * 256 + x) b

-- Reading `w` big-endian bytes gives back the number that was cut to them.
pub from_big_endian-big_endian : (w v : ℕ) → v < 256 ^ w → from_big_endian (big_endian w v) ≡ v
unfolding big_endian from_big_endian
from_big_endian-big_endian zero v h = omega arith
from_big_endian-big_endian (suc w) v h =
    from_big_endian_after-snoc (big_endian w (v / 256)) 0 (v % 256)
    ∙ omega (arith, from_big_endian-big_endian w (v / 256) (omega (arith, pow-suc 256 w)))

pub zero_filled-exact : (n : ℕ) (bs : Bytes) → length bs ≡ n → zero_filled n bs ≡ bs
unfolding zero_filled
zero_filled-exact n bs h =
    ap (λ k. take k (bs ++ replicate n 0)) (omega (arith, h)) ∙ take-append bs (replicate n 0)

-- A string without a NUL is what stands before the NUL that ends it.
pub before_nul-append : (bs rest : Bytes) → All (λ b. b ≢ 0) bs → before_nul (bs ++ 0 ∷ rest) ≡ bs
unfolding before_nul
before_nul-append [] rest h = refl
before_nul-append (b ∷ bs) rest (h, hs) = ground (arith, before_nul-append bs rest hs)
