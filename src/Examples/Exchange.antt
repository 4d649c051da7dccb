-- ===== src/Examples/Exchange.antt =====
-- An exchange over a line whose peer answers once all is written.
use amule_remote_qt.Base.{
  ℕ, ◌+◌, ◌≡◌, refl, ap, ◌∙◌, ◌⊎◌, inl, inr, Bool, true, false, some, [], ◌∷◌, ◌++◌, ◌==◌,
  if◌then◌else◌, arith, length, Bool-cases,
}
use amule_remote_qt.Ec.Bytes.{big_endian}
use amule_remote_qt.Ec.Outcome.{ok}
use amule_remote_qt.Ec.Codec.Encode.{
  encode, encode_payload, write_tag, encode_value, encode_int, name_wire, tag_len,
}
use amule_remote_qt.Ec.Client.Socket.{Socket, IsDelivering, IsSending, Waits, at_once, later}
use amule_remote_qt.Ec.Client.Frames.{exchange, timeout_ms}
use amule_remote_qt.Ec.Client.Frames.Exchanges.{exchange-reply}
use amule_remote_qt.Examples.Samples.{
  ascii_qt, sample_packet, Wire, on_wire, chunked, chunked-IsDelivering,
}
use amule_remote_qt.Examples.Wire.{
  small_packet, small_packet-IsPacket, split_frame, small_length, split_bytes,
}

-- What is still to be written, and the bytes from the peer.
record Line : Type 0 where
  unwritten : ℕ
  wire : Wire

abbrev silent : Wire
silent = record { arrived = []; coming = [] }

-- The last byte is written: the peer's answer is on its way.
abbrev answered : Line
answered = record { unwritten = 0; wire = split_frame }

abbrev wait_written : Line → Bool × Line
wait_written l = if l.unwritten == 0 then (false, l) else (true, answered)

abbrev answering : Socket Line
answering = record {
  connect_to_host = λ host port l. l;
  wait_for_connected = λ ms l. (true, l);
  set_low_delay = λ l. l;
  error_string = λ l. [];
  is_connected = λ l. true;
  write = λ bs l. (some (length bs), record l { unwritten = l.unwritten + length bs });
  bytes_to_write = λ l. l.unwritten;
  wait_for_bytes_written = λ ms l. wait_written l;
  bytes_available = λ l. length l.wire.arrived;
  wait_for_ready_read = λ ms l.
      let (ready, w) = chunked.wait_for_ready_read ms l.wire in (ready, record l { wire = w });
  read = λ n l. let (bs, w) = chunked.read n l.wire in (bs, record l { wire = w });
}

answering-IsDelivering : IsDelivering answering (λ l. on_wire l.wire)
answering-IsDelivering = record {
  wait_ready = λ ms l e h. chunked-IsDelivering.wait_ready ms l.wire e h;
  wait_available = λ ms l e h. chunked-IsDelivering.wait_available ms l.wire e h;
  wait_keeps = λ ms l. chunked-IsDelivering.wait_keeps ms l.wire;
  read_front = λ n l. chunked-IsDelivering.read_front n l.wire;
  read_most = λ n l. chunked-IsDelivering.read_most n l.wire;
  read_some = λ n l. chunked-IsDelivering.read_some n l.wire;
}

answering-IsSending : IsSending answering
answering-IsSending = record {
  writes = λ frame l open_line. refl;
  buffers = λ frame l. omega arith;
  wait_written = λ ms l h. ground arith;
  wait_less = λ ms l h. ground arith;
}

abbrev start : Line
start = record { unwritten = 0; wire = silent }

-- The line that holds a request, or the one whose peer has answered.
answers :
    (request : ℕ) (u : Line)
    → Waits answering timeout_ms (record { unwritten = request; wire = silent }) u
    → (u ≡ record { unwritten = request; wire = silent }) ⊎ (u ≡ answered)
answers request u at_once = inl refl
answers request u (later {t = t} w) = elim (Bool-cases (t.unwritten == 0)) [
  | inl e ↦ rw e (answers request t w)
  | inr e ↦ rw e (inr refl)
]

request_length : length (encode ascii_qt sample_packet) ≡ 97
unfolding encode encode_payload write_tag encode_value encode_int big_endian name_wire tag_len
request_length = refl

all_written :
    (u : Line)
    → Waits answering timeout_ms (answering.write (encode ascii_qt sample_packet) start).1 u
    → u.unwritten ≡ 0
    → on_wire u.wire ≡ encode ascii_qt small_packet ++ 42 ∷ []
all_written u w h = elim (answers (0 + length (encode ascii_qt sample_packet)) u w) [
  | inl e ↦ absurd (omega (arith, request_length, ap (λ l. l.unwritten) e))
  | inr e ↦ ap (λ l. on_wire l.wire) e ∙ split_bytes
]

exchange-reply_example :
    (v : Line) × (exchange answering 150 ascii_qt sample_packet start ≡ (ok small_packet, v))
    × (on_wire v.wire ≡ 42 ∷ [])
exchange-reply_example =
    exchange-reply answering (λ l. on_wire l.wire) answering-IsDelivering answering-IsSending
      ascii_qt 150 sample_packet small_packet (42 ∷ []) start refl (omega (arith, request_length))
      all_written small_packet-IsPacket (omega (arith, small_length)) (omega (arith, small_length))
