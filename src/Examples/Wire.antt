-- ===== src/Examples/Wire.antt =====
-- The wire format and the frames on a sample packet.
use amule_remote_qt.Base.{ℕ, ◌≡◌, ◌≢◌, refl, [], ◌∷◌, ◌++◌, arith, length}
use amule_remote_qt.Codes.Op
use amule_remote_qt.Ec.Bytes.{Bytes, text, big_endian, from_big_endian}
use amule_remote_qt.Ec.Tag.{nil, cons, leaf, tag, integer, Tag, string}
use amule_remote_qt.Ec.Packet.{Packet}
use amule_remote_qt.Ec.Outcome.{ok}
use amule_remote_qt.Ec.Codec.Encode.{
  encode_int, encode_value, encode_payload, encode, tag_len, write_tag, name_wire,
}
use amule_remote_qt.Ec.Codec.Decode
use amule_remote_qt.Ec.Codec.Decode.{
  decode_payload, decode_value, read_packet, read_tag, read_tags, unsigned, take_bytes, packet_of,
}
use amule_remote_qt.Ec.Codec.WellFormed.{IsPacket, body_len, children_len}
use amule_remote_qt.Ec.Codec.Payload.{decode_payload-encode_payload}
use amule_remote_qt.Ec.Codec.Total.{
  Settles, MovesBy, read_tag-Settles, decode_payload-ne-out_of_fuel,
}
use amule_remote_qt.Ec.Codec.Prefix.{decode_payload_truncated, decode_payload-append}
use amule_remote_qt.Ec.Codec.InRange.{Gives, PacketFits, decode_payload-PacketFits}
use amule_remote_qt.Ec.Codec.Shortest.{IsWidth, encode_int_shortest}
use amule_remote_qt.Ec.Client.Frames
use amule_remote_qt.Ec.Client.Frames.Replies.{read_packet-pending}
use amule_remote_qt.Examples.Samples.{
  ascii_qt, sample_packet, sample_packet-IsPacket, Wire, on_wire, chunked, chunked-IsDelivering,
}

decode_payload-encode_payload_example :
    decode_payload ascii_qt (encode_payload ascii_qt sample_packet ++ 7 ∷ 8 ∷ [])
    ≡ Decode.ok sample_packet
decode_payload-encode_payload_example =
    decode_payload-encode_payload ascii_qt sample_packet sample_packet-IsPacket (7 ∷ 8 ∷ [])

decode_payload-ne-out_of_fuel_example :
    decode_payload ascii_qt (1 ∷ 0 ∷ 1 ∷ 0 ∷ 1 ∷ 6 ∷ 0 ∷ []) ≢ Decode.out_of_fuel
decode_payload-ne-out_of_fuel_example =
    decode_payload-ne-out_of_fuel ascii_qt (1 ∷ 0 ∷ 1 ∷ 0 ∷ 1 ∷ 6 ∷ 0 ∷ [])

-- A packet with one tag, and its bytes.
abbrev pub small_packet : Packet
small_packet = record { opcode = Op.auth_fail; tags = cons (leaf 1 (integer 5)) nil }

pub small_packet-IsPacket : IsPacket ascii_qt small_packet
unfolding encode_value encode_int big_endian body_len children_len
small_packet-IsPacket = record {
  opcode_fits = omega arith;
  count_fits = omega arith;
  tags_fit = ground arith;
  length_fits = omega arith;
}

abbrev small_front : Bytes
small_front = Op.auth_fail ∷ 0 ∷ 1 ∷ 0 ∷ 2 ∷ []

abbrev small_back : Bytes
small_back = 0 ∷ 0 ∷ 0 ∷ 1 ∷ 5 ∷ []

small_bytes : encode_payload ascii_qt small_packet ≡ small_front ++ 2 ∷ small_back
unfolding encode_payload write_tag encode_value encode_int big_endian name_wire tag_len
small_bytes = refl

decode_payload_truncated_example : decode_payload ascii_qt small_front ≡ Decode.err Decode.truncated
decode_payload_truncated_example =
    decode_payload_truncated ascii_qt small_packet 2 small_front small_back small_packet-IsPacket
      small_bytes

abbrev noop_bytes : Bytes
noop_bytes = Op.noop ∷ 0 ∷ 0 ∷ []

noop_decodes :
    decode_payload ascii_qt noop_bytes ≡ Decode.ok (record { opcode = Op.noop; tags = nil })
unfolding decode_payload packet_of read_packet read_tags unsigned take_bytes from_big_endian
noop_decodes = refl

noop_is_whole :
    (r : Decode.Result Packet) (p : Packet) → r ≡ Decode.ok p → r ≢ Decode.err Decode.truncated
noop_is_whole r p e f = absurd (cc)

decode_payload-append_example :
    decode_payload ascii_qt (noop_bytes ++ 9 ∷ 9 ∷ []) ≡ decode_payload ascii_qt noop_bytes
decode_payload-append_example =
    decode_payload-append ascii_qt noop_bytes (9 ∷ 9 ∷ []) (noop_is_whole _ _ noop_decodes)

abbrev nested_tag : Tag
nested_tag = tag 3 (string (text "a")) (cons (leaf 1 (integer 70_000)) nil)

encode_int_shortest_example :
    ((k : ℕ) × IsWidth 70_000 k) × (from_big_endian (encode_int 70_000).1 ≡ 70_000)
encode_int_shortest_example = encode_int_shortest 70_000 (omega arith)

abbrev sample_cursor : Decode.Cursor
sample_cursor = record { position = 3; rest = 0 ∷ 2 ∷ 2 ∷ 0 ∷ 0 ∷ 0 ∷ 1 ∷ 5 ∷ 9 ∷ [] }

read_tag-Settles_example : Settles (MovesBy 7 sample_cursor) (read_tag ascii_qt 20 sample_cursor)
read_tag-Settles_example = read_tag-Settles ascii_qt 20 sample_cursor (omega arith)

-- The small packet's frame, broken inside its header and inside its payload, then a byte more.
abbrev pub split_frame : Wire
split_frame = record {
  arrived = 0 ∷ 0 ∷ [];
  coming =
      (0, 0x20 ∷ 0 ∷ 0 ∷ 0 ∷ 11 ∷ Op.auth_fail ∷ [])
      ∷ ((0, 1 ∷ 0 ∷ 2 ∷ 2 ∷ 0 ∷ 0 ∷ 0 ∷ 1 ∷ 5 ∷ 42 ∷ []) ∷ []);
}

pub split_bytes : on_wire split_frame ≡ encode ascii_qt small_packet ++ 42 ∷ []
unfolding encode encode_payload write_tag encode_value encode_int big_endian name_wire tag_len
split_bytes = refl

pub small_length : length (encode_payload ascii_qt small_packet) ≡ 11
unfolding encode_payload write_tag encode_value encode_int big_endian name_wire tag_len
small_length = refl

read_packet-pending_example :
    (t : Wire) × (Frames.read_packet chunked 40 ascii_qt split_frame ≡ (ok small_packet, t))
    × (on_wire t ≡ 42 ∷ [])
read_packet-pending_example =
    read_packet-pending chunked on_wire chunked-IsDelivering ascii_qt 40 small_packet (42 ∷ [])
      split_frame small_packet-IsPacket (omega (arith, small_length)) (omega (arith, small_length))
      split_bytes

decode_payload-PacketFits_example :
    Gives (PacketFits ascii_qt) (decode_payload ascii_qt (small_front ++ 2 ∷ small_back))
decode_payload-PacketFits_example =
    decode_payload-PacketFits ascii_qt (small_front ++ 2 ∷ small_back) (ground arith)
