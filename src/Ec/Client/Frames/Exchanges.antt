-- ===== src/Ec/Client/Frames/Exchanges.antt =====
-- A whole exchange: the request is written and flushed, and the reply is read.
use amule_remote_qt.Base.{
  ℕ, zero, suc, ◌+◌, ◌<◌, ◌^◌, ◌≡◌, refl, ◌∙◌, true, false, ◌++◌, arith, length, ◌==◌, Bool-cases,
  inl, inr,
}
use amule_remote_qt.Ec.Bytes.{Bytes, Qt}
use amule_remote_qt.Ec.Packet.{Packet}
use amule_remote_qt.Ec.Codec.Encode.{encode, encode_payload}
use amule_remote_qt.Ec.Codec.WellFormed.{IsPacket}
use amule_remote_qt.Ec.Outcome.{ok}
use amule_remote_qt.Ec.Client.Socket.{Socket, IsDelivering, IsSending, Waits, at_once, later}
use amule_remote_qt.Ec.Client.Frames.{exchange, write_all, flush, timeout_ms}
use amule_remote_qt.Ec.Client.Frames.Replies.{read_packet-pending}

module _ {S : Type 0} (sock : Socket S) (n : IsSending sock) where
  write_all-writes :
      (frame : Bytes) (s : S)
      → sock.is_connected s ≡ true
      → write_all sock frame s ≡ (ok tt, (sock.write frame s).1)
  unfolding write_all
  write_all-writes frame s open_socket =
      let whole : (length frame == length frame) ≡ true = ground arith in
      rw (write_all, n.writes frame s open_socket, whole) refl

  flush-step :
      (fuel : ℕ) (s : S)
      → (sock.bytes_to_write s == 0) ≡ false
      → flush sock (suc fuel) s ≡ flush sock fuel (sock.wait_for_bytes_written timeout_ms s).1
  unfolding flush
  flush-step fuel s some_left = rw some_left (rw (n.wait_written timeout_ms s (ground arith)) refl)

  -- The loop ends with nothing left to write, in a state that waits lead to.
  flush-Waits :
      (fuel : ℕ) (start s : S)
      → Waits sock timeout_ms start s
      → sock.bytes_to_write s < fuel
      → (t : S) × (flush sock fuel s ≡ (ok tt, t))
        × (sock.bytes_to_write t ≡ 0)
        × Waits sock timeout_ms start t
  unfolding flush
  flush-Waits zero start s w h = absurd (omega arith)
  flush-Waits (suc fuel) start s w h = elim (Bool-cases (sock.bytes_to_write s == 0)) [
    | inl e ↦ (s, rw e refl, ground arith, w)
    | inr e ↦
        let less = n.wait_less timeout_ms s (ground arith) in
        let (t, done, empty, waited) =
          flush-Waits fuel start (sock.wait_for_bytes_written timeout_ms s).1 (later w)
            (omega (arith, less)) in
        (t, flush-step fuel s e ∙ done, empty, waited)
  ]

-- A request over an open connection, to a peer that takes what is sent in time and whose bytes
-- arrive in time, is answered by the packet that the peer encoded in reply, and the bytes after it
-- are left: where, once nothing of the request is left to write, these are the bytes to come, the
-- reply is a packet which the wire format can carry, of a payload below 2^32 bytes, and there is
-- more fuel than bytes to write and than bytes of the reply.
pub exchange-reply :
    {S : Type 0} (sock : Socket S) (pending : S → Bytes)
    → IsDelivering sock pending
    → IsSending sock
    → (qt : Qt) (fuel : ℕ) (request reply : Packet) (rest : Bytes) (s : S)
    → sock.is_connected s ≡ true
    → sock.bytes_to_write s + length (encode qt request) < fuel
    → ((u : S)
        → Waits sock timeout_ms (sock.write (encode qt request) s).1 u
        → sock.bytes_to_write u ≡ 0
        → pending u ≡ encode qt reply ++ rest)
    → IsPacket qt reply
    → length (encode_payload qt reply) < 2 ^ 32
    → 8 + length (encode_payload qt reply) < fuel
    → (v : S) × (exchange sock fuel qt request s ≡ (ok reply, v)) × (pending v ≡ rest)
unfolding exchange
exchange-reply sock pending d n qt fuel request reply rest s open_socket room answers h small
      enough =
    let frame = encode qt request in
    let t = (sock.write frame s).1 in
    let (u, flushed, empty, waited) =
      flush-Waits sock n fuel t t at_once (omega (arith, n.buffers frame s)) in
    let (v, got, left) =
      read_packet-pending sock pending d qt fuel reply rest u h small enough
        (answers u waited empty) in
    (v, rw (write_all-writes sock n frame s open_socket, flushed) got, left)
