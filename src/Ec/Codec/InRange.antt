-- ===== src/Ec/Codec/InRange.antt =====
-- What `decodePayload` returns is in the range of its types, in core/ec/codec.cpp.
use amule_remote_qt.Base.{
  length-drop, ℕ, zero, suc, ◌-◌, ◌%◌, ◌^◌, ◌<◌, ◌≡◌, Bool, true, false, arith, ◌==◌, ◌∷◌, [],
  length, take, drop, All, if_both, length-take, if◌then◌else◌, ltb, Bool-cases, inl, inr, leb,
}
use amule_remote_qt.Codes.TagType
use amule_remote_qt.Ec.Bytes.{Qt, Bytes, IsByte, from_big_endian}
use amule_remote_qt.Ec.Bytes.Bounds.{
  from_big_endian-lt, All-take, All-drop, length-zero_filled, zero_filled-lt,
}
use amule_remote_qt.Ec.Tag.{Tag, Tags, TagValue, tag, nil, cons, integer, hash, ipv4}
use amule_remote_qt.Ec.Packet.{Packet}
use amule_remote_qt.Ec.Codec.Decode.{
  Result, ok, err, out_of_fuel, Cursor, Reader, bind, take_bytes, unsigned, first_or_zero,
  read_tags, read_children, read_data, decode_value, read_tag, read_packet, decode_payload,
  packet_of,
}

-- A value that its C++ type can hold.
abbrev pub ValueFits : TagValue → Type 0
ValueFits (integer v) = v < 2 ^ 64
ValueFits (hash h) = length h ≡ 16
ValueFits (ipv4 a) = (length a.ip ≡ 4) × (a.port < 2 ^ 16)
ValueFits _ = Unit {0}

abbrev mutual
  pub TagFits : Tag → Type 0
  TagFits (tag n v cs) = (n < 2 ^ 15) × ValueFits v × TagsFit cs

  pub TagsFit : Tags → Type 0
  TagsFit nil = Unit {0}
  TagsFit (cons t ts) = TagFits t × TagsFit ts

-- What holds of the result, if there is one.
abbrev pub Gives {ℓ} : {A : Type ℓ} → (A → Type 0) → Result A → Type 0
Gives P (ok a) = P a
Gives P (err e) = Unit {0}
Gives P out_of_fuel = Unit {0}

-- The same with bytes left to read.
abbrev Reads {ℓ} : {A : Type ℓ} → (A → Type 0) → A × Cursor → Type 0
Reads P (a, c) = P a × All IsByte c.rest

Gives-bind {ℓ κ} :
    {A : Type ℓ} {B : Type κ} (P : A → Type 0) (Q : B → Type 0) (r : Result (A × Cursor))
    (f : A → Reader B)
    → Gives (Reads P) r
    → ((a : A) (c : Cursor) → P a → All IsByte c.rest → Gives (Reads Q) (f a c))
    → Gives (Reads Q) (bind r f)
Gives-bind P Q (ok (a, c)) f (h, bytes) k = k a c h bytes
Gives-bind P Q (err e) f h k = tt
Gives-bind P Q out_of_fuel f h k = tt

first_or_zero-lt : (bs : Bytes) → All IsByte bs → first_or_zero bs < 2 ^ 64
unfolding first_or_zero
first_or_zero-lt [] h = omega arith
first_or_zero-lt (b ∷ bs) (h, hs) = omega arith

port-lt :
    (bs : Bytes)
    → All IsByte bs
    → (if leb 6 (length bs) then from_big_endian (take 2 (drop 4 bs)) else 0) < 2 ^ 16
port-lt bs h = elim (Bool-cases (leb 6 (length bs))) [
  | inl long ↦ rw long (
      from_big_endian-lt 2 (take 2 (drop 4 bs)) (All-take 2 _ (All-drop 4 bs h))
        (length-take 2 (drop 4 bs) (ground (arith, length-drop 4 bs))))
  | inr short ↦ rw short (omega arith)
]

module _ (qt : Qt) where
  decode_value-ValueFits :
      (type : ℕ) (bs : Bytes) → All IsByte bs → ValueFits (decode_value qt type bs)
  unfolding decode_value
  decode_value-ValueFits type bs h =
      if_both ValueFits (type == TagType.custom) (if_both ValueFits (length bs == 0) tt tt) (
        if_both ValueFits (type == TagType.uint8) (first_or_zero-lt bs h) (
          if_both ValueFits (type == TagType.uint16) (omega (arith, zero_filled-lt 2 bs h)) (
            if_both ValueFits (type == TagType.uint32) (omega (arith, zero_filled-lt 4 bs h)) (
              if_both ValueFits (type == TagType.uint64) (omega (arith, zero_filled-lt 8 bs h)) (
                if_both ValueFits (type == TagType.string) tt (
                  if_both ValueFits (type == TagType.hash16) (length-zero_filled 16 bs) (
                    if_both ValueFits (type == TagType.ipv4) (length-zero_filled 4 bs, port-lt bs h)
                      (if_both ValueFits (type == TagType.double) tt tt))))))))

  abbrev HasBytes : ℕ → Bytes → Type 0
  HasBytes n bs = (length bs ≡ n) × All IsByte bs

  take_bytes-Gives :
      (n : ℕ) (c : Cursor) → All IsByte c.rest → Gives (Reads (HasBytes n)) (take_bytes n c)
  unfolding take_bytes
  take_bytes-Gives n c h = elim (Bool-cases (ltb (length c.rest) n)) [
    | inl short ↦ rw short tt
    | inr long ↦
        rw long ((length-take n c.rest (ground arith), All-take n c.rest h), All-drop n c.rest h)
  ]

  unsigned-Gives :
      (w : ℕ) (c : Cursor) → All IsByte c.rest → Gives (Reads (λ v. v < 256 ^ w)) (unsigned w c)
  unfolding unsigned
  unsigned-Gives w c h =
      Gives-bind (HasBytes w) (λ v. v < 256 ^ w) (take_bytes w c) _ (take_bytes-Gives w c h)
        λ bs d (l, hb) hd. (from_big_endian-lt w bs hb l, hd)

  any_length :
      (n : ℕ) (r : Result (Bytes × Cursor))
      → Gives (Reads (HasBytes n)) r
      → Gives (Reads (All IsByte)) r
  any_length n (ok (bs, d)) ((l, hb), hd) = (hb, hd)
  any_length n (err e) h = tt
  any_length n out_of_fuel h = tt

  read_data-Gives :
      (len start : ℕ) (c : Cursor)
      → All IsByte c.rest
      → Gives (Reads (All IsByte)) (read_data len start c)
  unfolding read_data
  read_data-Gives len start c h = elim (Bool-cases (ltb len (c.position - start))) [
    | inl under ↦ rw under tt
    | inr fits ↦ rw fits (
        any_length (len - (c.position - start)) (take_bytes (len - (c.position - start)) c)
          (take_bytes-Gives (len - (c.position - start)) c h))
  ]

  read_tags-Gives :
      (read : Reader Tag)
      → ((c : Cursor) → All IsByte c.rest → Gives (Reads TagFits) (read c))
      → (n : ℕ) (c : Cursor) → All IsByte c.rest
      → Gives (Reads TagsFit) (read_tags read n c)
  unfolding read_tags
  read_tags-Gives read each zero c h = (tt, h)
  read_tags-Gives read each (suc n) c h =
      Gives-bind TagFits TagsFit (read c) _ (each c h) λ t d ht hd.
        Gives-bind TagsFit TagsFit (read_tags read n d) _ (read_tags-Gives read each n d hd)
          λ ts e hts he. ((ht, hts), he)

  abbrev BodyFits : ℕ × Tags → Type 0
  BodyFits (start, kids) = TagsFit kids

  read_children-Gives :
      (read : Reader Tag)
      → ((c : Cursor) → All IsByte c.rest → Gives (Reads TagFits) (read c))
      → (has_children : Bool) (c : Cursor) → All IsByte c.rest
      → Gives (Reads BodyFits) (read_children read has_children c)
  unfolding read_children
  read_children-Gives read each false c h = (tt, h)
  read_children-Gives read each true c h =
      Gives-bind (λ n. n < 256 ^ 2) BodyFits (unsigned 2 c) _ (unsigned-Gives 2 c h)
        λ n d hn hd.
          Gives-bind TagsFit BodyFits (read_tags read n d) _ (read_tags-Gives read each n d hd)
            λ ts e hts he. (hts, he)

  read_tag-Gives :
      (f : ℕ) (c : Cursor) → All IsByte c.rest → Gives (Reads TagFits) (read_tag qt f c)
  unfolding read_tag
  read_tag-Gives zero c h = tt
  read_tag-Gives (suc f) c h =
      Gives-bind (λ v. v < 256 ^ 2) TagFits (unsigned 2 c) _ (unsigned-Gives 2 c h)
        λ wire c₁ hw h₁.
          Gives-bind (λ v. v < 256 ^ 1) TagFits (unsigned 1 c₁) _ (unsigned-Gives 1 c₁ h₁)
            λ type c₂ ht h₂.
              Gives-bind (λ v. v < 256 ^ 4) TagFits (unsigned 4 c₂) _ (unsigned-Gives 4 c₂ h₂)
                λ len c₃ hl h₃.
                  Gives-bind BodyFits TagFits (read_children (read_tag qt f) (wire % 2 == 1) c₃) _
                    (read_children-Gives (read_tag qt f) (read_tag-Gives f) (wire % 2 == 1) c₃ h₃)
                    λ body c₄ hk h₄.
                      Gives-bind (All IsByte) TagFits (read_data len body.0 c₄) _
                        (read_data-Gives len body.0 c₄ h₄)
                        λ bytes c₅ hb h₅.
                          ((omega arith, decode_value-ValueFits type bytes hb, hk), h₅)

  abbrev pub PacketFits : Packet → Type 0
  PacketFits p = (p.opcode < 256) × TagsFit p.tags

  read_packet-Gives :
      (f : ℕ) (c : Cursor) → All IsByte c.rest → Gives (Reads PacketFits) (read_packet qt f c)
  unfolding read_packet
  read_packet-Gives f c h =
      Gives-bind (λ v. v < 256 ^ 1) PacketFits (unsigned 1 c) _ (unsigned-Gives 1 c h)
        λ op c₁ ho h₁.
          Gives-bind (λ v. v < 256 ^ 2) PacketFits (unsigned 2 c₁) _ (unsigned-Gives 2 c₁ h₁)
            λ n c₂ hn h₂.
              Gives-bind TagsFit PacketFits (read_tags (read_tag qt f) n c₂) _
                (read_tags-Gives (read_tag qt f) (read_tag-Gives f) n c₂ h₂)
                λ ts c₃ hts h₃. ((omega arith, hts), h₃)

  packet_of-Gives :
      (r : Result (Packet × Cursor)) → Gives (Reads PacketFits) r → Gives PacketFits (packet_of r)
  unfolding packet_of
  packet_of-Gives (ok (p, c)) (h, hc) = h
  packet_of-Gives (err e) h = tt
  packet_of-Gives out_of_fuel h = tt

  -- From bytes, a packet that decodes has an opcode of 8 bits, and on every level names of 15 bits,
  -- numbers of 64, ports of 16, digests of 16 bytes and addresses of 4.
  pub decode_payload-PacketFits :
      (payload : Bytes) → All IsByte payload → Gives PacketFits (decode_payload qt payload)
  unfolding decode_payload
  decode_payload-PacketFits payload h =
      packet_of-Gives _
        (read_packet-Gives (suc (length payload)) (record { position = 0; rest = payload }) h)
