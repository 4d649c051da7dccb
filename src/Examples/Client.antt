-- ===== src/Examples/Client.antt =====
-- The handshake with a daemon that answers from a script.
use amule_remote_qt.Base.{ℕ, ◌≡◌, ◌⊎◌, refl, some, List, [], ◌∷◌, ◌++◌, get_or}
use amule_remote_qt.Codes.Op
use amule_remote_qt.Codes.TagName
use amule_remote_qt.Ec.Bytes.{text}
use amule_remote_qt.Ec.Tag.{nil, cons, leaf, integer, string, find}
use amule_remote_qt.Ec.Packet.{Packet, tag_int, tag_string}
use amule_remote_qt.Ec.Outcome.{Outcome, Call, ok, io, throw}
use amule_remote_qt.Ec.Client.Handshake.{
  EcClient, auth_request, auth_reply, authenticate, answer, answer_salt, finish,
}
use amule_remote_qt.Ec.Client.Handshake.Sent.{authenticate_sends, authenticate_ok}
use amule_remote_qt.Examples.Samples.{ascii_qt}

-- The replies to come, and the requests so far.
record Script : Type 0 where
  replies : List Packet
  requests : List Packet

abbrev next_reply : List Packet → List Packet → Outcome Packet × Script
next_reply [] log = throw io (text "closed") (record { replies = []; requests = log })
next_reply (r ∷ rs) log = (ok r, record { replies = rs; requests = log })

abbrev scripted : Packet → Call Script Packet
scripted p s = next_reply s.replies (s.requests ++ p ∷ [])

next_reply_log : (rs log : List Packet) → (next_reply rs log).1.requests ≡ log
next_reply_log [] log = refl
next_reply_log (r ∷ rs) log = refl

scripted-logs : (p : Packet) (s : Script) → (scripted p s).1.requests ≡ s.requests ++ p ∷ []
scripted-logs p s = next_reply_log s.replies (s.requests ++ p ∷ [])

abbrev salt_challenge : Packet
salt_challenge = record {
  opcode = Op.auth_salt;
  tags = cons (leaf TagName.passwd_salt (integer 7)) nil;
}

abbrev welcome : Packet
welcome = record {
  opcode = Op.auth_ok;
  tags = cons (leaf TagName.server_version (string (text "2.3.3"))) nil;
}

abbrev new_client : EcClient Script
new_client = record {
  socket = record { replies = salt_challenge ∷ (welcome ∷ []); requests = [] };
  server_version = [];
}

abbrev after_handshake : EcClient Script
after_handshake = (authenticate ascii_qt scripted (text "secret") new_client).1

authenticate_sends_example :
    (after_handshake.socket.requests ≡ auth_request ∷ [])
    ⊎ ((salt : ℕ) × (challenge : Packet) × ((scripted auth_request new_client.socket).0
          ≡ ok challenge)
        × (challenge.opcode ≡ Op.auth_salt)
        × (tag_int challenge TagName.passwd_salt ≡ some salt)
        × (after_handshake.socket.requests
            ≡ auth_request ∷ auth_reply ascii_qt (text "secret") salt ∷ []))
authenticate_sends_example =
    authenticate_sends ascii_qt scripted (text "secret") (λ s. s.requests) scripted-logs new_client

welcomed : authenticate ascii_qt scripted (text "secret") new_client ≡ (ok tt, after_handshake)
unfolding authenticate answer answer_salt finish find
welcomed = refl

authenticate_ok_example :
    (last : Packet) × (((scripted auth_request new_client.socket).0 ≡ ok last)
      ⊎ ((salt : ℕ) × ((scripted
              (auth_reply ascii_qt (text "secret") salt)
              (scripted auth_request new_client.socket).1).0
            ≡ ok last)))
    × (last.opcode ≡ Op.auth_ok)
    × (after_handshake.server_version
        ≡ get_or (text "unknown") (tag_string last TagName.server_version))
authenticate_ok_example =
    authenticate_ok ascii_qt scripted (text "secret") new_client after_handshake welcomed
