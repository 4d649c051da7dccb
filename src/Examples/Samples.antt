-- ===== src/Examples/Samples.antt =====
-- Sample data: a concrete Qt, packets, and a socket whose bytes arrive in chunks.
use amule_remote_qt.Base.{
  false, ℕ, zero, suc, ◌+◌, ◌-◌, ◌≤◌, ◌<◌, ◌≡◌, ◌≢◌, refl, sym, ap, ◌∙◌, Bool, true, List, [], ◌∷◌,
  ◌++◌, append_assoc, append-nil, length, take, drop, replicate, arith, some, take-append-drop,
  length-append,
}
use amule_remote_qt.Codes.Op
use amule_remote_qt.Ec.Bytes.{Bytes, Qt, text, big_endian}
use amule_remote_qt.Ec.Tag.{
  nil, cons, tag, leaf, empty, custom, integer, string, hash, ipv4, double,
}
use amule_remote_qt.Ec.Packet.{Packet}
use amule_remote_qt.Ec.Codec.Encode.{encode_value, encode_int}
use amule_remote_qt.Ec.Codec.WellFormed.{IsPacket, body_len, children_len}
use amule_remote_qt.Ec.Client.Socket.{Socket, IsDelivering}

-- Texts of ASCII letters, doubles that stand for one digit, and a digest that is the length.
abbrev pub ascii_qt : Qt
ascii_qt = record {
  to_utf8 = λ s. s;
  from_utf8 = λ b. b;
  number = λ d. (b'0' + d) ∷ [];
  trimmed = λ b. b;
  to_double = λ b. elim b [ [] ↦ 0 | x ∷ xs ↦ x - b'0' ];
  decimal = λ n. (b'0' + n) ∷ [];
  hex_number = λ n. (b'0' + n) ∷ [];
  to_upper = λ s. s;
  to_lower = λ s. s;
  to_latin1 = λ s. s;
  from_latin1 = λ b. b;
  md5 = λ b. replicate 16 (length b);
  to_hex = λ b. b;
}

abbrev pub sample_digest : Bytes
sample_digest = replicate 16 0xab

-- A reply with nested tags and every kind of value.
abbrev pub sample_packet : Packet
sample_packet = record {
  opcode = Op.stats;
  tags = cons (leaf 0x0200 (integer 300)) (
      cons
        (tag 0x0300 (hash sample_digest)
          (cons (leaf 0x0301 (string (text "a file"))) (cons (leaf 0x0302 empty) nil)))
        (cons (leaf 0x0500 (ipv4 (record { ip = 10 ∷ 0 ∷ 0 ∷ 1 ∷ []; port = 4662 })))
          (cons (leaf 0x0608 (double 7)) (cons (leaf 0x0004 (custom (1 ∷ 2 ∷ []))) nil))));
}

pub sample_packet-IsPacket : IsPacket ascii_qt sample_packet
unfolding encode_value encode_int big_endian body_len children_len
sample_packet-IsPacket = record {
  opcode_fits = omega arith;
  count_fits = omega arith;
  tags_fit = ground arith;
  length_fits = omega arith;
}

-- The bytes that have arrived, and the chunks that are still on their way: a first byte and more.
pub record Wire : Type 0 where
  pub arrived : Bytes
  pub coming : List (ℕ × Bytes)

abbrev concat : List (ℕ × Bytes) → Bytes
concat [] = []
concat ((b, bs) ∷ cs) = b ∷ (bs ++ concat cs)

abbrev pub on_wire : Wire → Bytes
on_wire w = w.arrived ++ concat w.coming

abbrev deliver : List (ℕ × Bytes) → Wire → Bool × Wire
deliver [] w = (false, w)
deliver ((b, bs) ∷ cs) w = (true, record { arrived = w.arrived ++ b ∷ bs; coming = cs })

abbrev pub chunked : Socket Wire
chunked = record {
  connect_to_host = λ host port w. w;
  wait_for_connected = λ ms w. (true, w);
  set_low_delay = λ w. w;
  error_string = λ w. [];
  is_connected = λ w. true;
  write = λ bs w. (some (length bs), w);
  bytes_to_write = λ w. 0;
  wait_for_bytes_written = λ ms w. (true, w);
  bytes_available = λ w. length w.arrived;
  wait_for_ready_read = λ ms w. deliver w.coming w;
  read = λ n w. (take n w.arrived, record w { arrived = drop n w.arrived });
}

deliver-keeps :
    (cs : List (ℕ × Bytes)) (w : Wire)
    → on_wire (deliver cs (record w { coming = cs })).1 ≡ w.arrived ++ concat cs
deliver-keeps [] w = refl
deliver-keeps ((b, bs) ∷ cs) w = append_assoc w.arrived (b ∷ bs) (concat cs)

length-ne-nil : (xs : Bytes) → xs ≢ [] → 0 < length xs
length-ne-nil [] h = absurd (h refl)
length-ne-nil (x ∷ xs) h = omega arith

deliver-ready :
    (cs : List (ℕ × Bytes)) (w : Wire)
    → length w.arrived ≡ 0
    → w.arrived ++ concat cs ≢ []
    → (deliver cs w).0 ≡ true
deliver-ready [] w e h =
    absurd (omega (arith, e, length-ne-nil w.arrived (rw (append-nil w.arrived) at h)))
deliver-ready (c ∷ cs) w e h = refl

deliver-available :
    (cs : List (ℕ × Bytes)) (w : Wire)
    → w.arrived ++ concat cs ≢ []
    → 0 < length (deliver cs w).1.arrived
deliver-available [] w h = length-ne-nil w.arrived (rw (append-nil w.arrived) at h)
deliver-available ((b, bs) ∷ cs) w h = omega (arith, length-append w.arrived (b ∷ bs))

take-read :
    (n : ℕ) (xs : Bytes)
    → (length (take n xs) ≤ n) × (0 < n → 0 < length xs → 0 < length (take n xs))
take-read zero xs = (omega arith, λ h k. h)
take-read (suc n) [] = (omega arith, λ h k. k)
take-read (suc n) (x ∷ xs) = (omega (arith, (take-read n xs).0), λ h k. omega arith)

pub chunked-IsDelivering : IsDelivering chunked on_wire
chunked-IsDelivering = record {
  wait_ready = λ ms w none_left h. deliver-ready w.coming w none_left h;
  wait_available = λ ms w none_left h. deliver-available w.coming w h;
  wait_keeps = λ ms w. deliver-keeps w.coming w;
  read_front = λ n w.
      sym (ap (λ bs. bs ++ concat w.coming) (take-append-drop n w.arrived))
      ∙ append_assoc (take n w.arrived) (drop n w.arrived) (concat w.coming);
  read_most = λ n w. (take-read n w.arrived).0;
  read_some = λ n w. (take-read n w.arrived).1;
}
