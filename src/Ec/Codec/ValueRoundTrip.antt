-- ===== src/Ec/Codec/ValueRoundTrip.antt =====
-- `decodeValue` inverts `encodeValue` on the values that the format can carry.
use amule_remote_qt.Base.{
  ℕ, ◌^◌, ◌<◌, ◌≡◌, refl, ap, true, arith, [], ◌∷◌, ◌++◌, append_assoc, append-nil, length, take,
  drop, leb, Bool-cases, inl, inr, take_front, drop_front,
}
use amule_remote_qt.Ec.Bytes.{Qt, Bytes, big_endian, from_big_endian, zero_filled}
use amule_remote_qt.Ec.Bytes.BigEndian.{
  length-big_endian, from_big_endian-big_endian, zero_filled-exact, before_nul-append,
}
use amule_remote_qt.Ec.Tag.{TagValue, empty, custom, integer, string, hash, ipv4, double}
use amule_remote_qt.Ec.Codec.Encode.{encode_int, encode_value}
use amule_remote_qt.Ec.Codec.Decode.{first_or_zero, decode_value}
use amule_remote_qt.Ec.Codec.WellFormed.{IsValue}
use amule_remote_qt.Ec.Codec.Length.{length-append_bytes}

fixed_width : (w v : ℕ) → v < 256 ^ w → from_big_endian (zero_filled w (big_endian w v)) ≡ v
fixed_width w v h =
    rw (zero_filled-exact w (big_endian w v) (length-big_endian w v))
      (from_big_endian-big_endian w v h)

encode_int-decode :
    (qt : Qt) (v : ℕ) → v < 2 ^ 64 → decode_value qt (encode_int v).0 (encode_int v).1 ≡ integer v
unfolding encode_int decode_value first_or_zero
encode_int-decode qt v h = elim (Bool-cases (leb v 0xff)) [
  | inl e ↦ rw e refl
  | inr e ↦ rw e (elim (Bool-cases (leb v 0xffff)) [
    | inl e₂ ↦ rw e₂ (ap integer (fixed_width 2 v (ground arith)))
    | inr e₂ ↦ rw e₂ (elim (Bool-cases (leb v 0xffff_ffff)) [
      | inl e₄ ↦ rw e₄ (ap integer (fixed_width 4 v (ground arith)))
      | inr e₄ ↦ rw e₄ (ap integer (fixed_width 8 v h))
    ])
  ])
]

decode_ipv4 :
    (ip : Bytes) (port : ℕ)
    → length ip ≡ 4
    → port < 2 ^ 16
    → (zero_filled 4 (ip ++ big_endian 2 port) ≡ ip)
      × (leb 6 (length (ip ++ big_endian 2 port)) ≡ true)
      × (from_big_endian (take 2 (drop 4 (ip ++ big_endian 2 port))) ≡ port)
unfolding zero_filled
decode_ipv4 ip port h k = (
  rw append_assoc (take_front 4 ip _ h),
  ground (arith, length-append_bytes ip (big_endian 2 port), length-big_endian 2 port),
  rw (drop_front 4 ip (big_endian 2 port) h) (
      rw (← append-nil (big_endian 2 port)) (
        rw (take_front 2 (big_endian 2 port) [] (length-big_endian 2 port))
          (from_big_endian-big_endian 2 port k))),
)

pub decode_value-encode_value :
    (qt : Qt) (v : TagValue)
    → IsValue qt v
    → decode_value qt (encode_value qt v).0 (encode_value qt v).1 ≡ v
unfolding encode_value decode_value
decode_value-encode_value qt empty h = refl
decode_value-encode_value qt (custom []) h = absurd (h refl)
decode_value-encode_value qt (custom (b ∷ bs)) h = ground arith
decode_value-encode_value qt (integer v) h = encode_int-decode qt v h
decode_value-encode_value qt (string s) (no_nul, back) =
    ap string (rw (before_nul-append (qt.to_utf8 s) [] no_nul) back)
decode_value-encode_value qt (hash d) h = ap hash (zero_filled-exact 16 d h)
decode_value-encode_value qt (ipv4 a) (h, k) =
    let parts = decode_ipv4 a.ip a.port h k in ap ipv4 (rw (parts.0, parts.1, parts.2) refl)
decode_value-encode_value qt (double d) (no_nul, back) =
    ap double (rw (before_nul-append (qt.number d) [] no_nul) back)
