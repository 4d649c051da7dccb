-- ===== src/Ec/Codec/Reads.antt =====
-- The cursor on a buffer that begins with what is to be read.
use amule_remote_qt.Base.{
  ℕ, ◌+◌, ◌^◌, ◌<◌, ◌≡◌, refl, ap, arith, [], ◌∷◌, ◌++◌, length, take-append, drop-append,
}
use amule_remote_qt.Ec.Bytes.{Bytes, big_endian, from_big_endian}
use amule_remote_qt.Ec.Bytes.BigEndian.{length-big_endian, from_big_endian-big_endian}
use amule_remote_qt.Ec.Codec.Decode.{Cursor, ok, take_bytes, unsigned}
use amule_remote_qt.Ec.Codec.Length.{length-append_bytes}

-- A cursor by its parts.
abbrev pub at : ℕ → Bytes → Cursor
at p bs = record { position = p; rest = bs }

pub take_bytes-append :
    (n p : ℕ) (bs rest : Bytes)
    → length bs ≡ n
    → take_bytes n (at p (bs ++ rest)) ≡ ok (bs, at (p + n) rest)
unfolding take_bytes
take_bytes-append n p bs rest h =
    rw (← h) (ground (arith, length-append_bytes bs rest, take-append bs rest, drop-append bs rest))

pub unsigned-big_endian :
    (w p v : ℕ) (rest : Bytes)
    → v < 256 ^ w
    → unsigned w (at p (big_endian w v ++ rest)) ≡ ok (v, at (p + w) rest)
unfolding unsigned
unsigned-big_endian w p v rest h =
    rw (take_bytes-append w p (big_endian w v) rest (length-big_endian w v))
      (rw (from_big_endian-big_endian w v h))

pub unsigned-byte :
    (p b : ℕ) (rest : Bytes) → unsigned 1 (at p (b ∷ rest)) ≡ ok (b, at (p + 1) rest)
unfolding unsigned from_big_endian
unsigned-byte p b rest =
    rw (take_bytes-append 1 p (b ∷ []) rest refl) (ap (λ n. ok (n, at (p + 1) rest)) (omega arith))
