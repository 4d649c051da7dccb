-- ===== src/Ec/Bytes.antt =====
-- Byte arrays, big-endian numbers (`appendBE` and `qFromBigEndian` of core/ec/codec.cpp), and the
-- conversions that Qt provides.
pub mod BigEndian
pub mod Bounds
use Prim.Native.Char.{code}
use Prim.Native.String.{String}
use amule_remote_qt.Base.{
  ℕ, zero, suc, ◌+◌, ◌*◌, ◌/◌, ◌%◌, ◌^◌, ◌<◌, ◌≡◌, Bool, List, [], ◌∷◌, ◌++◌, ◌==◌, if◌then◌else◌,
  length, take, replicate, All,
}

-- A QByteArray: its bytes.
abbrev pub Bytes : Type 0
Bytes = List ℕ

-- A QString: its UTF-16 code units.
abbrev pub Text : Type 0
Text = List ℕ

abbrev pub IsByte : ℕ → Type 0
IsByte b = b < 256

-- `appendBE<T>` for a `T` of `w` bytes: the low `w` bytes of the number, the highest first.
unfoldable pub big_endian : ℕ → ℕ → Bytes
big_endian zero v = []
big_endian (suc w) v = big_endian w (v / 256) ++ (v % 256) ∷ []

abbrev pub from_big_endian_after : ℕ → Bytes → ℕ
from_big_endian_after acc [] = acc
from_big_endian_after acc (b ∷ bs) = from_big_endian_after (acc * 256 + b) bs

-- `qFromBigEndian<T>` on as many bytes as `T` has.
unfoldable pub from_big_endian : Bytes → ℕ
from_big_endian bs = from_big_endian_after 0 bs

-- A zeroed array of `n` bytes after `memcpy(array, data, min(size, n))`.
unfoldable pub zero_filled : ℕ → Bytes → Bytes
zero_filled n bs = take n (bs ++ replicate n 0)

-- The bytes before the first NUL, or all of them if there is none.
unfoldable pub before_nul : Bytes → Bytes
before_nul [] = []
before_nul (b ∷ bs) = if b == 0 then [] else b ∷ before_nul bs

-- A text literal of the source.
abbrev pub text : String → Text
text String.[] = []
text (String.◌∷◌ c s) = code c ∷ text s

-- What the code takes from Qt. A `double` is its 64-bit pattern.
pub record Qt : Type 0 where
  -- QString::toUtf8 and QString::fromUtf8.
  pub to_utf8 : Text → Bytes
  pub from_utf8 : Bytes → Text
  -- QByteArray::number(double), QByteArray::trimmed and QByteArray::toDouble.
  pub number : ℕ → Bytes
  pub trimmed : Bytes → Bytes
  pub to_double : Bytes → ℕ
  -- QString::number(n) and `%1` of an integer.
  pub decimal : ℕ → Text
  -- QString::number(n, 16), and the code units' case and Latin-1 conversions.
  pub hex_number : ℕ → Text
  pub to_upper : Text → Text
  pub to_lower : Text → Text
  pub to_latin1 : Text → Bytes
  pub from_latin1 : Bytes → Text
  -- QCryptographicHash's MD5 digest, and QByteArray::toHex.
  pub md5 : Bytes → Bytes
  pub to_hex : Bytes → Bytes
