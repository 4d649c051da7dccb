-- ===== src/Ec/Client/Frames/Replies.antt =====
-- Whole frames: `readPacket` on a connection that delivers.
use amule_remote_qt.Base.{
  ℕ, ◌+◌, ◌<◌, ◌^◌, ◌≡◌, refl, ◌∙◌, [], ◌++◌, arith, length, take, drop, append_assoc, append-nil,
  take_front, drop_front,
}
use amule_remote_qt.Codes.Flag
use amule_remote_qt.Ec.Bytes.{Bytes, Qt, big_endian, from_big_endian}
use amule_remote_qt.Ec.Bytes.BigEndian.{length-big_endian, from_big_endian-big_endian}
use amule_remote_qt.Ec.Packet.{Packet}
use amule_remote_qt.Ec.Codec.Encode.{encode, encode_payload}
use amule_remote_qt.Ec.Codec.WellFormed.{IsPacket}
use amule_remote_qt.Ec.Codec.Length.{length-append_bytes}
use amule_remote_qt.Ec.Codec.Payload.{decode_payload-encode_payload}
use amule_remote_qt.Ec.Outcome.{ok}
use amule_remote_qt.Ec.Client.Socket.{Socket, IsDelivering}
use amule_remote_qt.Ec.Client.Frames.{read_exactly, read_packet, open_frame, unpack}
use amule_remote_qt.Ec.Client.Frames.Stream.{read_exactly-pending}

-- The outer header: flags and length.
abbrev header : ℕ → Bytes
header len = big_endian 4 Flag.base ++ big_endian 4 len

length-header : (len : ℕ) → length (header len) ≡ 8
length-header len = omega (
  arith,
  length-append_bytes (big_endian 4 Flag.base) (big_endian 4 len),
  length-big_endian 4 Flag.base,
  length-big_endian 4 len,
)

header-flags : (len : ℕ) → from_big_endian (take 4 (header len)) ≡ 0x20
unfolding big_endian from_big_endian
header-flags len = refl

header-len : (len : ℕ) → len < 2 ^ 32 → from_big_endian (take 4 (drop 4 (header len))) ≡ len
header-len len h =
    rw (drop_front 4 (big_endian 4 Flag.base) (big_endian 4 len) (length-big_endian 4 Flag.base)) (
      rw (← append-nil (big_endian 4 len)) (
        rw (take_front 4 (big_endian 4 len) [] (length-big_endian 4 len))
          (from_big_endian-big_endian 4 len h)))

open_frame-encode_payload :
    (qt : Qt) (pk : Packet) {S : Type 0} (s : S)
    → IsPacket qt pk
    → open_frame qt 0x20 (encode_payload qt pk) s ≡ (ok pk, s)
unfolding open_frame unpack
open_frame-encode_payload qt pk s h =
    rw (← append-nil (encode_payload qt pk)) (rw (decode_payload-encode_payload qt pk h []) refl)

module _ {S : Type 0} (sock : Socket S) (pending : S → Bytes) (d : IsDelivering sock pending) where
  read_packet-steps :
      (qt : Qt) (fuel : ℕ) (pk : Packet) (len : ℕ) (payload : Bytes) (s t u : S)
      → len < 2 ^ 32
      → length payload ≡ len
      → read_exactly sock fuel 8 s ≡ (ok (header len), t)
      → read_exactly sock fuel len t ≡ (ok payload, u)
      → open_frame qt 0x20 payload u ≡ (ok pk, u)
      → read_packet sock fuel qt s ≡ (ok pk, u)
  unfolding read_packet
  read_packet-steps qt fuel pk len payload s t u small l got_header got_payload opened =
      rw got_header (rw (header-flags len, header-len len small) (rw got_payload opened))

  -- `readPacket` returns the packet that the peer encoded, in whatever chunks its frame arrives,
  -- and leaves the bytes that follow the frame on the connection: for a packet which the wire
  -- format can carry, a payload below 2^32 bytes, a socket that delivers what is sent, and more
  -- fuel than the frame has bytes.
  pub read_packet-pending :
      (qt : Qt) (fuel : ℕ) (pk : Packet) (rest : Bytes) (s : S)
      → IsPacket qt pk
      → length (encode_payload qt pk) < 2 ^ 32
      → 8 + length (encode_payload qt pk) < fuel
      → pending s ≡ encode qt pk ++ rest
      → (t : S) × (read_packet sock fuel qt s ≡ (ok pk, t)) × (pending t ≡ rest)
  unfolding encode
  read_packet-pending qt fuel pk rest s h small enough e =
      let payload = encode_payload qt pk in
      let len = length payload in
      let regroup : encode qt pk ++ rest ≡ header len ++ (payload ++ rest) = simp append_assoc in
      let (t, got_header, after) =
        read_exactly-pending sock pending d fuel (header len) (payload ++ rest) s (e ∙ regroup)
          (omega (arith, length-header len)) in
      let (u, got_payload, end) =
        read_exactly-pending sock pending d fuel payload rest t after (omega arith) in
      (
        u,
        read_packet-steps qt fuel pk len payload s t u small refl
            (rw (length-header len) at got_header) got_payload
            (open_frame-encode_payload qt pk u h),
        end,
      )
