-- ===== src/Ec/Codec/Prefix.antt =====
-- Decoding a part of a payload: what the readers of core/ec/codec.cpp do when more bytes follow.
use amule_remote_qt.Base.{
  ℕ, zero, suc, ◌-◌, ◌%◌, ◌≤◌, ◌≡◌, ◌≢◌, refl, ap, Bool, true, false, arith, ◌==◌, length, ltb,
  Bool-cases, inl, inr, take-append_le, drop-append_le, [], ◌∷◌, ◌++◌, append-nil,
}
use amule_remote_qt.Ec.Bytes.{Qt, Bytes}
use amule_remote_qt.Ec.Tag.{Tag}
use amule_remote_qt.Ec.Packet.{Packet}
use amule_remote_qt.Ec.Codec.Encode.{encode_payload}
use amule_remote_qt.Ec.Codec.Decode.{
  Result, ok, err, out_of_fuel, truncated, underflow, Cursor, Reader, bind, take_bytes, unsigned,
  read_tags, read_children, read_data, read_tag, read_packet, decode_payload, packet_of,
}
use amule_remote_qt.Ec.Codec.WellFormed.{IsPacket}
use amule_remote_qt.Ec.Codec.Length.{length-append_bytes, length-encode_payload, length-write_tags}
use amule_remote_qt.Ec.Codec.Total.{decode_payload-ne-out_of_fuel}
use amule_remote_qt.Ec.Codec.Payload.{read_packet-encode_payload}
use amule_remote_qt.Ec.Codec.Reads.{at}

-- The same position in a buffer that goes on with `more`.
abbrev extend : Bytes → Cursor → Cursor
extend more c = record { position = c.position; rest = c.rest ++ more }

-- How a run on the longer buffer relates to the run on the shorter one: a result and an underflow
-- stand, and only a truncation can go another way.
abbrev Carries {ℓ} : {A : Type ℓ} → Bytes → Result (A × Cursor) → Result (A × Cursor) → Type ℓ
Carries more (ok (a, c)) r = r ≡ ok (a, extend more c)
Carries more (err truncated) r = Unit
Carries more (err underflow) r = r ≡ err underflow
Carries more out_of_fuel r = Unit

module _ (more : Bytes) where
  Carries-bind {ℓ κ} :
      {A : Type ℓ} {B : Type κ} (r s : Result (A × Cursor)) (f g : A → Reader B)
      → Carries more r s
      → ((a : A) (c : Cursor) → Carries more (f a c) (g a (extend more c)))
      → Carries more (bind r f) (bind s g)
  Carries-bind (ok (a, c)) s f g h k = rw h (k a c)
  Carries-bind (err truncated) s f g h k = tt
  Carries-bind (err underflow) s f g h k = rw h refl
  Carries-bind out_of_fuel s f g h k = tt

  take_bytes-Carries :
      (n : ℕ) (c : Cursor) → Carries more (take_bytes n c) (take_bytes n (extend more c))
  unfolding take_bytes
  take_bytes-Carries n c = ground (
    arith,
    length-append_bytes c.rest more,
    take-append_le n c.rest more,
    drop-append_le n c.rest more,
  )

  unsigned-Carries : (w : ℕ) (c : Cursor) → Carries more (unsigned w c) (unsigned w (extend more c))
  unfolding unsigned
  unsigned-Carries w c =
      Carries-bind (take_bytes w c) (take_bytes w (extend more c)) _ _ (take_bytes-Carries w c)
        λ a d. refl

  read_data-Carries :
      (len start : ℕ) (c : Cursor)
      → Carries more (read_data len start c) (read_data len start (extend more c))
  unfolding read_data
  read_data-Carries len start c = elim (Bool-cases (ltb len (c.position - start))) [
    | inl e ↦ rw e refl
    | inr e ↦ rw e (take_bytes-Carries (len - (c.position - start)) c)
  ]

  module _ (read read' : Reader Tag)
      (h : (c : Cursor) → Carries more (read c) (read' (extend more c))) where
    read_tags-Carries :
        (n : ℕ) (c : Cursor) → Carries more (read_tags read n c) (read_tags read' n (extend more c))
    unfolding read_tags
    read_tags-Carries zero c = refl
    read_tags-Carries (suc n) c = Carries-bind (read c) (read' (extend more c)) _ _ (h c) λ t d.
        Carries-bind (read_tags read n d) (read_tags read' n (extend more d)) _ _
          (read_tags-Carries n d) λ ts d'. refl

    read_children-Carries :
        (b : Bool) (c : Cursor)
        → Carries more (read_children read b c) (read_children read' b (extend more c))
    unfolding read_children
    read_children-Carries false c = refl
    read_children-Carries true c =
        Carries-bind (unsigned 2 c) (unsigned 2 (extend more c)) _ _ (unsigned-Carries 2 c) λ n d.
          Carries-bind (read_tags read n d) (read_tags read' n (extend more d)) _ _
            (read_tags-Carries n d) λ ts d'. refl

  module _ (qt : Qt) where
    -- More bytes and more fuel change neither a result nor an underflow.
    read_tag-Carries :
        (f g : ℕ) (c : Cursor)
        → f ≤ g
        → Carries more (read_tag qt f c) (read_tag qt g (extend more c))
    unfolding read_tag
    read_tag-Carries zero g c e = tt
    read_tag-Carries (suc f) zero c e = absurd (omega arith)
    read_tag-Carries (suc f) (suc g) c e =
        let ih = λ (d : Cursor). read_tag-Carries f g d (omega arith) in
        Carries-bind (unsigned 2 c) (unsigned 2 (extend more c)) _ _ (unsigned-Carries 2 c)
          λ wire c₁.
            Carries-bind (unsigned 1 c₁) (unsigned 1 (extend more c₁)) _ _ (unsigned-Carries 1 c₁)
              λ type c₂.
                Carries-bind (unsigned 4 c₂) (unsigned 4 (extend more c₂)) _ _
                  (unsigned-Carries 4 c₂)
                  λ len c₃.
                    Carries-bind (read_children (read_tag qt f) (wire % 2 == 1) c₃)
                      (read_children (read_tag qt g) (wire % 2 == 1) (extend more c₃)) _ _
                      (read_children-Carries (read_tag qt f) (read_tag qt g) ih (wire % 2 == 1) c₃)
                      λ (start, kids) c₄.
                        Carries-bind (read_data len start c₄) (read_data len start (extend more c₄))
                          _ _ (read_data-Carries len start c₄) λ bytes c₅. refl

    read_packet-Carries :
        (f g : ℕ) (c : Cursor)
        → f ≤ g
        → Carries more (read_packet qt f c) (read_packet qt g (extend more c))
    unfolding read_packet
    read_packet-Carries f g c e =
        Carries-bind (unsigned 1 c) (unsigned 1 (extend more c)) _ _ (unsigned-Carries 1 c) λ op c₁.
          Carries-bind (unsigned 2 c₁) (unsigned 2 (extend more c₁)) _ _ (unsigned-Carries 2 c₁)
            λ n c₂.
              Carries-bind (read_tags (read_tag qt f) n c₂)
                (read_tags (read_tag qt g) n (extend more c₂)) _ _
                (read_tags-Carries (read_tag qt f) (read_tag qt g) (λ d. read_tag-Carries f g d e) n
                  c₂)
                λ ts c₃. refl

-- The two runs of `decodePayload`, with the fuel that each hands out.
read_packet_pair :
    (qt : Qt) (front more : Bytes)
    → Carries more
        (read_packet qt (suc (length front)) (at 0 front))
        (read_packet qt (suc (length (front ++ more))) (at 0 (front ++ more)))
read_packet_pair qt front more =
    read_packet-Carries more qt (suc (length front)) (suc (length (front ++ more))) (at 0 front)
      (omega (arith, length-append_bytes front more))

packet_of-Carries :
    (more : Bytes) (r s : Result (Packet × Cursor))
    → Carries more r s
    → packet_of r ≢ err truncated
    → packet_of r ≢ out_of_fuel
    → packet_of s ≡ packet_of r
unfolding packet_of
packet_of-Carries more (ok (p, c)) s h t f = rw h refl
packet_of-Carries more (err truncated) s h t f = absurd (t refl)
packet_of-Carries more (err underflow) s h t f = rw h refl
packet_of-Carries more out_of_fuel s h t f = absurd (f refl)

-- A byte string that does not decode to "truncated" decodes alike with any bytes after it.
pub decode_payload-append :
    (qt : Qt) (front more : Bytes)
    → decode_payload qt front ≢ err truncated
    → decode_payload qt (front ++ more) ≡ decode_payload qt front
unfolding decode_payload
decode_payload-append qt front more whole =
    packet_of-Carries more _ _ (read_packet_pair qt front more) whole
      (decode_payload-ne-out_of_fuel qt front)

append-ne-nil : (xs : Bytes) (y : ℕ) (ys : Bytes) → xs ++ y ∷ ys ≢ []
append-ne-nil [] y ys = cc
append-ne-nil (x ∷ xs) y ys = cc

-- A run that the longer buffer completes with nothing left fell short of bytes.
cut_short :
    (x : ℕ) (back : Bytes) (pk : Packet) (q : ℕ) (r s : Result (Packet × Cursor))
    → Carries (x ∷ back) r s
    → s ≡ ok (pk, at q [])
    → packet_of r ≢ out_of_fuel
    → packet_of r ≡ err truncated
unfolding packet_of
cut_short x back pk q (ok (p, c)) s h e f =
    let nothing_left : c.rest ++ x ∷ back ≡ [] = cc (h, e) in
    absurd (append-ne-nil c.rest x back nothing_left)
cut_short x back pk q (err truncated) s h e f = refl
cut_short x back pk q (err underflow) s h e f = cc (h, e)
cut_short x back pk q out_of_fuel s h e f = absurd (f refl)

-- Every proper prefix of the payload that was encoded of a packet which the wire format can carry
-- decodes to "truncated".
pub decode_payload_truncated :
    (qt : Qt) (pk : Packet) (x : ℕ) (front back : Bytes)
    → IsPacket qt pk
    → encode_payload qt pk ≡ front ++ x ∷ back
    → decode_payload qt front ≡ err truncated
unfolding decode_payload
decode_payload_truncated qt pk x front back h e =
    cut_short x back pk _ _ _ (read_packet_pair qt front (x ∷ back))
      (rw (append-nil, e) at
        (read_packet-encode_payload qt pk h (suc (length (front ++ x ∷ back))) []
          (omega (arith, ap length e, length-encode_payload qt pk, length-write_tags qt pk.tags))))
      (decode_payload-ne-out_of_fuel qt front)
