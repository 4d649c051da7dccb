-- ===== src/Ec/Codec/Shortest.antt =====
-- The size that `encodeInt` of core/ec/codec.cpp picks.
use amule_remote_qt.Base.{
  ◌+◌, ◌-◌, ◌⊎◌, refl, ℕ, ◌^◌, ◌≤◌, ◌<◌, ◌≡◌, leb, arith, length, Bool-cases, inl, inr,
}
use amule_remote_qt.Codes.TagType
use amule_remote_qt.Ec.Bytes.{from_big_endian}
use amule_remote_qt.Ec.Bytes.BigEndian.{length-big_endian, from_big_endian-big_endian}
use amule_remote_qt.Ec.Codec.Encode.{encode_int}

-- The type code and the size for a number: the `k`-th of 1, 2, 4 and 8 bytes, the first that holds
-- it.
pub record IsWidth (v k : ℕ) : Type 0 where
  pub size : length (encode_int v).1 ≡ 2 ^ k
  pub code : (encode_int v).0 ≡ TagType.uint8 + k
  pub at_most : k ≤ 3
  pub holds : v < 256 ^ (2 ^ k)
  pub no_less : (k ≡ 0) ⊎ (256 ^ (2 ^ (k - 1)) ≤ v)

encode_int-IsWidth : (v : ℕ) → v < 2 ^ 64 → (k : ℕ) × IsWidth v k
unfolding encode_int
encode_int-IsWidth v h = elim (Bool-cases (leb v 0xff)) [
  | inl e ↦ (
    0,
    record {
      size = rw e refl;
      code = rw e refl;
      at_most = omega arith;
      holds = ground arith;
      no_less = inl refl;
    },
  )
  | inr e ↦ elim (Bool-cases (leb v 0xffff)) [
    | inl f ↦ (
      1,
      record {
        size = rw (e, f) (length-big_endian 2 v);
        code = rw (e, f) refl;
        at_most = omega arith;
        holds = ground arith;
        no_less = inr (ground arith);
      },
    )
    | inr f ↦ elim (Bool-cases (leb v 0xffff_ffff)) [
      | inl g ↦ (
        2,
        record {
          size = rw (e, f, g) (length-big_endian 4 v);
          code = rw (e, f, g) refl;
          at_most = omega arith;
          holds = ground arith;
          no_less = inr (ground arith);
        },
      )
      | inr g ↦ (
        3,
        record {
          size = rw (e, f, g) (length-big_endian 8 v);
          code = rw (e, f, g) refl;
          at_most = omega arith;
          holds = h;
          no_less = inr (ground arith);
        },
      )
    ]
  ]
]

encode_int-value : (v : ℕ) → v < 2 ^ 64 → from_big_endian (encode_int v).1 ≡ v
unfolding encode_int from_big_endian
encode_int-value v h = elim (Bool-cases (leb v 0xff)) [
  | inl e ↦ rw e (omega arith)
  | inr e ↦ rw e (elim (Bool-cases (leb v 0xffff)) [
    | inl e ↦ rw e (from_big_endian-big_endian 2 v (ground arith))
    | inr e ↦ rw e (elim (Bool-cases (leb v 0xffff_ffff)) [
      | inl e ↦ rw e (from_big_endian-big_endian 4 v (ground arith))
      | inr e ↦ rw e (from_big_endian-big_endian 8 v h)
    ])
  ])
]

-- A 64-bit number is written in one, two, four or eight bytes, the fewest of these that hold it,
-- under the type code of that size, and the bytes are its value.
pub encode_int_shortest :
    (v : ℕ) → v < 2 ^ 64 → ((k : ℕ) × IsWidth v k) × (from_big_endian (encode_int v).1 ≡ v)
encode_int_shortest v h = (encode_int-IsWidth v h, encode_int-value v h)
