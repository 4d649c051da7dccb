-- ===== src/Ec/Codec/Total.antt =====
-- `decodePayload` ends on every byte string, and a tag's reader stays within its buffer.
use amule_remote_qt.Base.{
  ℕ, zero, suc, ◌+◌, ◌-◌, ◌%◌, ◌≤◌, ◌<◌, ◌≡◌, ◌≢◌, Bool, true, false, arith, ◌==◌, length,
  length-drop,
}
use amule_remote_qt.Ec.Bytes.{Qt, Bytes}
use amule_remote_qt.Ec.Tag.{Tag}
use amule_remote_qt.Ec.Packet.{Packet}
use amule_remote_qt.Ec.Codec.Decode.{
  Result, ok, err, out_of_fuel, Cursor, Reader, bind, take_bytes, unsigned, read_tags,
  read_children, read_data, read_tag, read_packet, decode_payload, packet_of,
}

-- The run ended within its fuel, and `P` holds of what it returned, if it did.
abbrev pub Settles {ℓ} : {A : Type ℓ} → (A → Type 0) → Result A → Type 0
Settles P (ok a) = P a
Settles P (err e) = Unit
Settles P out_of_fuel = ⊥

-- The cursor moved forward by `k` bytes at least, and its position counts what it has passed.
abbrev pub Moves : ℕ → Cursor → Cursor → Type 0
Moves k c d =
    (length d.rest + k ≤ length c.rest) × (d.position + length d.rest ≡ c.position + length c.rest)

abbrev pub MovesBy {ℓ} : {A : Type ℓ} → ℕ → Cursor → A × Cursor → Type 0
MovesBy k c (a, d) = Moves k c d

Settles-bind {ℓ κ} :
    {A : Type ℓ} {B : Type κ} (P : A × Cursor → Type 0) (Q : B × Cursor → Type 0)
    (r : Result (A × Cursor)) (f : A → Reader B)
    → Settles P r
    → ((a : A) (c : Cursor) → P (a, c) → Settles Q (f a c))
    → Settles Q (bind r f)
Settles-bind P Q (ok (a, c)) f h k = k a c h
Settles-bind P Q (err e) f h k = tt
Settles-bind P Q out_of_fuel f h k = absurd h

take_bytes-Settles : (n : ℕ) (c : Cursor) → Settles (MovesBy n c) (take_bytes n c)
unfolding take_bytes
take_bytes-Settles n c = ground (arith, length-drop n c.rest)

unsigned-Settles : (w : ℕ) (c : Cursor) → Settles (MovesBy w c) (unsigned w c)
unfolding unsigned
unsigned-Settles w c =
    Settles-bind (MovesBy w c) (MovesBy w c) (take_bytes w c) _ (take_bytes-Settles w c) λ a d h. h

read_data-Settles : (len start : ℕ) (c : Cursor) → Settles (MovesBy 0 c) (read_data len start c)
unfolding read_data
read_data-Settles len start c = ground (arith, take_bytes-Settles (len - (c.position - start)) c)

read_tags-Settles :
    (b n : ℕ) (read : Reader Tag)
    → ((c : Cursor) → length c.rest < b → Settles (MovesBy 7 c) (read c))
    → (c : Cursor) → length c.rest < b
    → Settles (MovesBy 0 c) (read_tags read n c)
unfolding read_tags
read_tags-Settles b zero read h c e = omega arith
read_tags-Settles b (suc n) read h c e =
    Settles-bind (MovesBy 7 c) (MovesBy 0 c) (read c) _ (h c e) λ t d m.
      Settles-bind (MovesBy 0 d) (MovesBy 0 c) (read_tags read n d) _
        (read_tags-Settles b n read h d (omega arith)) λ ts d' m'. omega arith

read_children-Settles :
    (b : ℕ) (read : Reader Tag) (has_children : Bool)
    → ((c : Cursor) → length c.rest < b → Settles (MovesBy 7 c) (read c))
    → (c : Cursor) → length c.rest < b
    → Settles (MovesBy 0 c) (read_children read has_children c)
unfolding read_children
read_children-Settles b read false h c e = omega arith
read_children-Settles b read true h c e =
    Settles-bind (MovesBy 2 c) (MovesBy 0 c) (unsigned 2 c) _ (unsigned-Settles 2 c) λ n d m.
      Settles-bind (MovesBy 0 d) (MovesBy 0 c) (read_tags read n d) _
        (read_tags-Settles b n read h d (omega arith)) λ ts d' m'. omega arith

module _ (qt : Qt) where
  -- With more fuel than there are bytes left, `readTag` ends: it fails, or has read seven bytes at
  -- least and its position says how far it went.
  pub read_tag-Settles :
      (f : ℕ) (c : Cursor) → length c.rest < f → Settles (MovesBy 7 c) (read_tag qt f c)
  unfolding read_tag
  read_tag-Settles zero c e = absurd (omega arith)
  read_tag-Settles (suc f) c e =
      Settles-bind (MovesBy 2 c) (MovesBy 7 c) (unsigned 2 c) _ (unsigned-Settles 2 c) λ wire c₁ m₁.
        Settles-bind (MovesBy 1 c₁) (MovesBy 7 c) (unsigned 1 c₁) _ (unsigned-Settles 1 c₁)
          λ type c₂ m₂.
            Settles-bind (MovesBy 4 c₂) (MovesBy 7 c) (unsigned 4 c₂) _ (unsigned-Settles 4 c₂)
              λ len c₃ m₃.
                Settles-bind (MovesBy 0 c₃) (MovesBy 7 c)
                  (read_children (read_tag qt f) (wire % 2 == 1) c₃) _
                  (read_children-Settles f (read_tag qt f) (wire % 2 == 1) (read_tag-Settles f) c₃
                    (omega arith))
                  λ (start, kids) c₄ m₄.
                    Settles-bind (MovesBy 0 c₄) (MovesBy 7 c) (read_data len start c₄) _
                      (read_data-Settles len start c₄) λ bytes c₅ m₅. omega arith

  read_packet-Settles :
      (f : ℕ) (c : Cursor) → length c.rest < f → Settles (MovesBy 3 c) (read_packet qt f c)
  unfolding read_packet
  read_packet-Settles f c e =
      Settles-bind (MovesBy 1 c) (MovesBy 3 c) (unsigned 1 c) _ (unsigned-Settles 1 c) λ op c₁ m₁.
        Settles-bind (MovesBy 2 c₁) (MovesBy 3 c) (unsigned 2 c₁) _ (unsigned-Settles 2 c₁)
          λ n c₂ m₂.
            Settles-bind (MovesBy 0 c₂) (MovesBy 3 c) (read_tags (read_tag qt f) n c₂) _
              (read_tags-Settles f n (read_tag qt f) (read_tag-Settles f) c₂ (omega arith))
              λ ts c₃ m₃. omega arith

  packet_of-ne :
      (P : Packet × Cursor → Type 0) (r : Result (Packet × Cursor))
      → Settles P r
      → packet_of r ≢ out_of_fuel
  unfolding packet_of
  packet_of-ne P (ok (p, c)) h = cc
  packet_of-ne P (err e) h = cc
  packet_of-ne P out_of_fuel h = absurd h

  -- Every byte string decodes to a packet or to an error: the depth of the recursion never reaches
  -- the payload's length.
  pub decode_payload-ne-out_of_fuel : (payload : Bytes) → decode_payload qt payload ≢ out_of_fuel
  unfolding decode_payload
  decode_payload-ne-out_of_fuel payload = packet_of-ne _ _ (
      read_packet-Settles (suc (length payload)) (record { position = 0; rest = payload })
        (omega arith))
