-- ===== src/Ec/Codec/Payload.antt =====
-- What `encode` writes, `decodePayload` reads back.
use amule_remote_qt.Base.{ℕ, suc, ◌+◌, ◌≤◌, ◌≡◌, refl, arith, ◌++◌, append_assoc, length}
use amule_remote_qt.Ec.Bytes.{Qt, Bytes, big_endian}
use amule_remote_qt.Ec.Tag.{count}
use amule_remote_qt.Ec.Packet.{Packet}
use amule_remote_qt.Ec.Codec.Encode.{write_tags, encode_payload}
use amule_remote_qt.Ec.Codec.Decode.{ok, read_packet, decode_payload, packet_of}
use amule_remote_qt.Ec.Codec.WellFormed.{IsPacket}
use amule_remote_qt.Ec.Codec.Reads.{at, unsigned-big_endian, unsigned-byte}
use amule_remote_qt.Ec.Codec.Length.{length-write_tags, length-append_bytes, length-encode_payload}
use amule_remote_qt.Ec.Codec.RoundTrip.{read_tags-write_tags}

module _ (qt : Qt) (pk : Packet) (h : IsPacket qt pk) where
  pub read_packet-encode_payload :
      (f : ℕ) (rest : Bytes)
      → length (write_tags qt pk.tags) ≤ f
      → read_packet qt f (at 0 (encode_payload qt pk ++ rest))
        ≡ ok (pk, at (0 + 1 + 2 + length (write_tags qt pk.tags)) rest)
  unfolding read_packet encode_payload
  read_packet-encode_payload f rest e =
      rw
        (
          append_assoc (big_endian 2 (count pk.tags)) (write_tags qt pk.tags) rest,
          unsigned-byte 0 pk.opcode
              (big_endian 2 (count pk.tags) ++ (write_tags qt pk.tags ++ rest)),
          unsigned-big_endian 2 (0 + 1) (count pk.tags) (write_tags qt pk.tags ++ rest)
              h.count_fits,
          read_tags-write_tags qt pk.tags f h.tags_fit h.length_fits e (0 + 1 + 2) rest,
        )
        refl

  -- Decoding the payload that was encoded of a packet which the wire format can carry gives back
  -- the packet, whatever bytes follow: the opcode, names, counts, numbers and lengths fit their
  -- fields, no opaque data are empty, and Qt carries the texts and prints the doubles without loss
  -- and without a NUL.
  pub decode_payload-encode_payload :
      (rest : Bytes) → decode_payload qt (encode_payload qt pk ++ rest) ≡ ok pk
  unfolding decode_payload packet_of
  decode_payload-encode_payload rest =
      let enough : length (write_tags qt pk.tags) ≤ suc (length (encode_payload qt pk ++ rest)) =
        omega (
          arith,
          length-append_bytes (encode_payload qt pk) rest,
          length-encode_payload qt pk,
          length-write_tags qt pk.tags,
        ) in
      rw (read_packet-encode_payload (suc (length (encode_payload qt pk ++ rest))) rest enough) refl
