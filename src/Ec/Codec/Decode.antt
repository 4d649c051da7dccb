-- ===== src/Ec/Codec/Decode.antt =====
-- The decoding half of core/ec/codec.cpp. A thrown DecodeError is an `err`; `out_of_fuel` has no
-- counterpart in the program.
use amule_remote_qt.Base.{
  ℕ, zero, suc, ◌+◌, ◌-◌, ◌/◌, ◌%◌, Bool, [], ◌∷◌, ltb, leb, ◌==◌, if◌then◌else◌, length, take,
  drop,
}
use amule_remote_qt.Codes.TagType
use amule_remote_qt.Ec.Bytes.{Bytes, Qt, from_big_endian, zero_filled, before_nul}
use amule_remote_qt.Ec.Tag.{
  Tag, Tags, TagValue, tag, nil, cons, empty, custom, integer, string, hash, ipv4, double,
}
use amule_remote_qt.Ec.Packet.{Packet}

-- The messages "EC payload truncated" and "EC tag length underflow".
pub data DecodeError : Type 0 where
  truncated underflow : DecodeError

pub data Result {ℓ} (A : Type ℓ) : Type ℓ where
  ok : A → Result A
  err : DecodeError → Result A
  out_of_fuel : Result A

-- The read position, and the bytes of the buffer from there on.
pub record Cursor : Type 0 where
  pub position : ℕ
  pub rest : Bytes

abbrev pub Reader {ℓ} : Type ℓ → Type ℓ
Reader A = Cursor → Result (A × Cursor)

abbrev pub pure {ℓ} : {A : Type ℓ} → A → Reader A
pure a c = ok (a, c)

abbrev pub bind {ℓ κ} :
    {A : Type ℓ} {B : Type κ} → Result (A × Cursor) → (A → Reader B) → Result (B × Cursor)
bind (ok (a, c)) f = f a c
bind (err e) f = err e
bind out_of_fuel f = out_of_fuel

infixl 5 ◌>>=◌
abbrev pub ◌>>=◌ {ℓ κ} : {A : Type ℓ} {B : Type κ} → Reader A → (A → Reader B) → Reader B
m >>= f = λ c. bind (m c) f

-- `Cursor::remaining` is the length of the rest.
unfoldable pub take_bytes : ℕ → Reader Bytes
take_bytes n c =
    if ltb (length c.rest) n
    then err truncated
    else ok (take n c.rest, record { position = c.position + n; rest = drop n c.rest })

-- `u8`, `u16` and `u32`, by the number of bytes.
unfoldable pub unsigned : ℕ → Reader ℕ
unsigned w = do bs ← take_bytes w; pure (from_big_endian bs)

abbrev pub position : Reader ℕ
position c = ok (c.position, c)

unfoldable pub first_or_zero : Bytes → ℕ
first_or_zero [] = 0
first_or_zero (b ∷ bs) = b

-- `for (i = 0; i < count; ++i) tags.push_back(read())`.
unfoldable pub read_tags : Reader Tag → ℕ → Reader Tags
read_tags read zero = pure nil
read_tags read (suc n) = do t ← read; ts ← read_tags read n; pure (cons t ts)

-- The tag count, where the name's last bit announces one, and the children; with the position
-- at which the body starts.
unfoldable pub read_children : Reader Tag → Bool → Reader (ℕ × Tags)
read_children read has_children =
    if has_children
    then (do n ← unsigned 2; start ← position; ts ← read_tags read n; pure (start, ts))
    else (do start ← position; pure (start, nil))

-- The data that is left of the tag's length after the children.
unfoldable pub read_data : ℕ → ℕ → Reader Bytes
read_data len start c =
    if ltb len (c.position - start)
    then err underflow
    else take_bytes (len - (c.position - start)) c

unfoldable pub packet_of : Result (Packet × Cursor) → Result Packet
packet_of (ok (p, c)) = ok p
packet_of (err e) = err e
packet_of out_of_fuel = out_of_fuel

module _ (qt : Qt) where
  unfoldable pub decode_value : ℕ → Bytes → TagValue
  decode_value type bytes =
      if type == TagType.custom
      then (if length bytes == 0 then empty else custom bytes)
      else if type == TagType.uint8
      then integer (first_or_zero bytes)
      else if type == TagType.uint16
      then integer (from_big_endian (zero_filled 2 bytes))
      else if type == TagType.uint32
      then integer (from_big_endian (zero_filled 4 bytes))
      else if type == TagType.uint64
      then integer (from_big_endian (zero_filled 8 bytes))
      else if type == TagType.string
      then string (qt.from_utf8 (before_nul bytes))
      else if type == TagType.hash16
      then hash (zero_filled 16 bytes)
      else if type == TagType.ipv4
      then ipv4 (record {
        ip = zero_filled 4 bytes;
        port = if leb 6 (length bytes) then from_big_endian (take 2 (drop 4 bytes)) else 0;
      })
      else if type == TagType.double
      then double (qt.to_double (qt.trimmed (before_nul bytes)))
      else custom bytes

  -- The fuel bounds the depth of the recursion.
  unfoldable pub read_tag : ℕ → Reader Tag
  read_tag zero c = out_of_fuel
  read_tag (suc f) c = bind (unsigned 2 c) λ wire. unsigned 1 >>= λ type. unsigned 4 >>= λ len.
      read_children (read_tag f) (wire % 2 == 1) >>= λ (start, kids).
      read_data len start >>= λ bytes. pure (tag (wire / 2) (decode_value type bytes) kids)

  -- The body of the `try` block.
  unfoldable pub read_packet : ℕ → Reader Packet
  read_packet f = do
    op ← unsigned 1
    n ← unsigned 2
    ts ← read_tags (read_tag f) n
    pure (record { opcode = op; tags = ts })

  -- A tag takes seven bytes at least, so the depth stays below the payload's length.
  unfoldable pub decode_payload : Bytes → Result Packet
  decode_payload payload =
      packet_of (read_packet (suc (length payload)) (record { position = 0; rest = payload }))
