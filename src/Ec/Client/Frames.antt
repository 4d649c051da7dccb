-- ===== src/Ec/Client/Frames.antt =====
-- Frames on the socket: `exchange`, `request`, `readPacket` and `readExactly` of
-- core/ec/client.cpp. `fuel` bounds the rounds of each loop over the socket.
pub mod Stream
pub mod Replies
pub mod Exchanges
use Prim.Native.Nat.{bit_and}
use amule_remote_qt.Base.{
  ℕ, zero, suc, ◌-◌, Bool, true, false, Option, none, some, [], ◌++◌, ltb, ◌==◌, not, ◌&&◌,
  if◌then◌else◌, length, take, drop,
}
use amule_remote_qt.Codes.Flag
use amule_remote_qt.Codes.Frame
use amule_remote_qt.Ec.Bytes.{Bytes, Text, Qt, from_big_endian, text}
use amule_remote_qt.Ec.Tag.{nil}
use amule_remote_qt.Ec.Packet.{Packet}
use amule_remote_qt.Ec.Codec.Encode.{encode}
use amule_remote_qt.Ec.Codec.Decode
use amule_remote_qt.Ec.Codec.Decode.{decode_payload, truncated, underflow}
use amule_remote_qt.Ec.Outcome.{
  Outcome, Call, ok, err, out_of_fuel, io, remote, pure, throw, bind, ◌>>=◌,
}
use amule_remote_qt.Ec.Client.Socket.{Socket}

abbrev pub timeout_ms : ℕ
timeout_ms = 20_000

-- The `message` of a DecodeError.
unfoldable pub decode_message : Decode.DecodeError → Text
decode_message truncated = text "EC payload truncated"
decode_message underflow = text "EC tag length underflow"

unfoldable pub unpack : {S : Type 0} → Decode.Result Packet → Call S Packet
unpack (Decode.ok p) = pure p
unpack (Decode.err e) = throw remote (decode_message e)
unpack Decode.out_of_fuel = λ s. (out_of_fuel, s)

-- The packet of a frame's flags and payload.
unfoldable pub open_frame : {S : Type 0} → Qt → ℕ → Bytes → Call S Packet
open_frame qt flags payload =
    if bit_and flags Flag.zlib == 0
    then unpack (decode_payload qt payload)
    else throw remote (text "received a zlib-compressed reply (unsupported)")

module _ {S : Type 0} (sock : Socket S) where
  -- What follows a read of a chunk: fail on a closed connection, or go on.
  unfoldable pub after_chunk : Bytes → Call S Bytes → Call S Bytes
  after_chunk chunk more s =
      if length chunk == 0 && not (sock.is_connected s)
      then throw io (text "connection closed by the daemon") s
      else more s

  -- `bytesAvailable() == 0 && !waitForReadyRead(...)` fails; the state after the test.
  unfoldable pub await : Call S (Unit {0})
  await s =
      if sock.bytes_available s == 0
      then (let (ready, t) = sock.wait_for_ready_read timeout_ms s in
          if ready
          then (ok tt, t)
          else throw io
              (if sock.is_connected t
                then text "timed out waiting for the daemon"
                else sock.error_string t)
              t)
      else (ok tt, s)

  -- The loop of `readExactly`, with what `buf` holds.
  unfoldable pub read_loop : ℕ → ℕ → Bytes → Call S Bytes
  read_loop zero n buf s = (out_of_fuel, s)
  read_loop (suc fuel) n buf s =
      let round = bind (await s) λ _ t.
        let (chunk, u) = sock.read (n - length buf) t in
        after_chunk chunk (read_loop fuel n (buf ++ chunk)) u in
      if ltb (length buf) n then round else (ok buf, s)

  -- The loop of `exchange` that waits until all is written.
  unfoldable pub flush : ℕ → Call S (Unit {0})
  flush zero s = (out_of_fuel, s)
  flush (suc fuel) s =
      let (written, t) = sock.wait_for_bytes_written timeout_ms s in
      let round = if written then flush fuel t else throw io (sock.error_string t) t in
      if sock.bytes_to_write s == 0 then (ok tt, s) else round

  unfoldable pub write_all : Bytes → Call S (Unit {0})
  write_all frame s =
      let (written, t) = sock.write frame s in
      elim written [
        | none ↦ throw io (sock.error_string t) t
        | some n ↦ if n == length frame then (ok tt, t) else throw io (sock.error_string t) t
      ]

  module _ (fuel : ℕ) where
    unfoldable pub read_exactly : ℕ → Call S Bytes
    read_exactly n = read_loop fuel n []

    module _ (qt : Qt) where
      unfoldable pub read_packet : Call S Packet
      read_packet = do
        header ← read_exactly Frame.header_size
        let flags = from_big_endian (take 4 header)
        let len = from_big_endian (take 4 (drop 4 header))
        payload ← read_exactly len
        open_frame qt flags payload

      unfoldable pub exchange : Packet → Call S Packet
      exchange request = do _ ← write_all (encode qt request); _ ← flush fuel; read_packet

      unfoldable pub request : ℕ → Call S Packet
      request opcode = exchange (record { opcode = opcode; tags = nil })
