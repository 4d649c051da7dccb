-- ===== src/Ec/Client/Handshake.antt =====
-- Connecting and authenticating: `connect`, `connectWithMd5` and `authenticate` of
-- core/ec/client.cpp. The exchange of packets is a parameter of `authenticate`.
pub mod Sent
use amule_remote_qt.Base.{
  ℕ, Bool, true, false, Option, none, some, [], ◌∷◌, ◌++◌, ltb, ◌==◌, if◌then◌else◌, length, get_or,
}
use amule_remote_qt.Codes.Frame
use amule_remote_qt.Codes.Op
use amule_remote_qt.Codes.TagName
use amule_remote_qt.Ec.Bytes.{Bytes, Text, Qt, text}
use amule_remote_qt.Ec.Tag.{nil, cons, leaf, empty, integer, string, hash}
use amule_remote_qt.Ec.Packet.{Packet, tag_int, tag_string}
use amule_remote_qt.Ec.Outcome.{
  Outcome, Call, ok, err, out_of_fuel, io, auth_failed, unexpected, missing_salt, EcError, pure,
  throw, bind, ◌>>=◌,
}
use amule_remote_qt.Ec.Client.Socket.{Socket}
use amule_remote_qt.Ec.Client.Password.{md5_hex, salted_password_hash}
use amule_remote_qt.Ec.Client.Frames.{exchange, timeout_ms}

pub record EcClient (S : Type 0) : Type 0 where
  pub socket : S
  pub server_version : Text

-- A call on the client's socket.
abbrev pub on_socket : {S A : Type 0} → Call S A → Call (EcClient S) A
on_socket m c = let (r, s) = m c.socket in (r, record c { socket = s })

unfoldable pub auth_request : Packet
auth_request = record {
  opcode = Op.auth_req;
  tags = cons (leaf TagName.client_name (string (text "amule-remote-qt"))) (
      cons (leaf TagName.client_version (string (text "0.1.0"))) (
        cons (leaf TagName.protocol_version (integer Frame.current_protocol_version)) (
          cons (leaf TagName.can_large_tag_count empty)
            (cons (leaf TagName.can_partial_update empty) nil))));
}

-- `%1` with the number in hexadecimal, at least two digits wide.
unfoldable pub two_hex_digits : Qt → ℕ → Text
two_hex_digits qt n =
    let digits = qt.hex_number n in
    if length digits == 0
    then b'0' ∷ b'0' ∷ []
    else if length digits == 1
    then b'0' ∷ digits
    else digits

module _ (qt : Qt) where
  unfoldable pub auth_reply : Text → ℕ → Packet
  auth_reply pass_md5_hex salt = record {
    opcode = Op.auth_passwd;
    tags = cons (leaf TagName.passwd_hash (hash (salted_password_hash qt pass_md5_hex salt))) nil;
  }

  -- The switch on the last reply's opcode.
  unfoldable pub finish : {S : Type 0} → Packet → Call (EcClient S) (Unit {0})
  finish reply c =
      if reply.opcode == Op.auth_ok
      then (
        ok tt,
        record c {
          server_version = get_or (text "unknown") (tag_string reply TagName.server_version);
        },
      )
      else if reply.opcode == Op.auth_fail
      then throw auth_failed
          (get_or (text "daemon rejected the connection") (tag_string reply TagName.string)) c
      else throw unexpected
          (text "unexpected response: opcode 0x" ++ two_hex_digits qt reply.opcode) c

  module _ {S : Type 0} (send : Packet → Call S Packet) where
    unfoldable pub answer_salt : Text → Option ℕ → Call (EcClient S) Packet
    answer_salt pass none = throw missing_salt (text "the daemon did not send a password salt")
    answer_salt pass (some salt) = on_socket (send (auth_reply pass salt))

    unfoldable pub answer : Text → Packet → Call (EcClient S) Packet
    answer pass reply =
        if reply.opcode == Op.auth_salt
        then answer_salt pass (tag_int reply TagName.passwd_salt)
        else pure reply

    unfoldable pub authenticate : Text → Call (EcClient S) (Unit {0})
    authenticate pass = do
      first ← on_socket (send auth_request)
      last ← answer pass first
      finish last

  module _ {S : Type 0} (sock : Socket S) (fuel : ℕ) where
    abbrev pub with_client : EcClient S → Outcome (Unit {0}) → Outcome (EcClient S)
    with_client c (ok u) = ok c
    with_client c (err e) = err e
    with_client c out_of_fuel = out_of_fuel

    -- The socket is new; what is returned is the client, or the reason that there is none.
    unfoldable pub connect_with_md5 : Text → ℕ → Text → S → Outcome (EcClient S)
    connect_with_md5 host port pass_md5_hex s =
        let (connected, t) =
          sock.wait_for_connected timeout_ms (sock.connect_to_host host port s) in
        let (r, c) =
          authenticate (exchange sock fuel qt) (qt.to_lower pass_md5_hex)
            (record { socket = sock.set_low_delay t; server_version = [] }) in
        if connected
        then with_client c r
        else err (record { kind = io; message = sock.error_string t })

    unfoldable pub connect : Text → ℕ → Text → S → Outcome (EcClient S)
    connect host port password s = connect_with_md5 host port (md5_hex qt (qt.to_utf8 password)) s
