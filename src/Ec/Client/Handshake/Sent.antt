-- ===== src/Ec/Client/Handshake/Sent.antt =====
-- What the handshake sends and when it succeeds.
use amule_remote_qt.Base.{
  ℕ, ◌≡◌, ◌⊎◌, inl, inr, refl, ap, ◌∙◌, some, List, [], ◌∷◌, ◌++◌, ◌==◌, arith, append_assoc,
  Bool-cases, get_or, Option-cases,
}
use amule_remote_qt.Codes.Op
use amule_remote_qt.Codes.TagName
use amule_remote_qt.Ec.Bytes.{Text, Qt, text}
use amule_remote_qt.Ec.Packet.{Packet, tag_int, tag_string}
use amule_remote_qt.Ec.Outcome.{Outcome, Call, ok, err, out_of_fuel, bind}
use amule_remote_qt.Ec.Client.Handshake.{
  EcClient, auth_request, auth_reply, finish, answer_salt, answer, authenticate,
}

-- `sent` is the list of requests so far, and each exchange adds its own.
abbrev pub Logs : {S : Type 0} → (Packet → Call S Packet) → (S → List Packet) → Type 0
Logs {S} send sent = (p : Packet) (s : S) → sent (send p s).1 ≡ sent s ++ p ∷ []

module _ (qt : Qt) {S : Type 0} (send : Packet → Call S Packet) (pass : Text) where
  finish-socket : (p : Packet) (c : EcClient S) → (finish qt p c).1.socket ≡ c.socket
  unfolding finish
  finish-socket p c = ground arith

  finish-ok :
      (p : Packet) (c d : EcClient S)
      → finish qt p c ≡ (ok tt, d)
      → (p.opcode ≡ Op.auth_ok)
        × (d.server_version ≡ get_or (text "unknown") (tag_string p TagName.server_version))
  unfolding finish
  finish-ok p c d e = ground arith

  bind-finish-socket :
      (r : Outcome Packet) (c : EcClient S) → (bind (r, c) (finish qt)).1.socket ≡ c.socket
  bind-finish-socket (ok p) c = finish-socket p c
  bind-finish-socket (err e) c = refl
  bind-finish-socket out_of_fuel c = refl

  -- The rest of the handshake, once the first reply is in.
  abbrev rest : Outcome Packet × EcClient S → Outcome (Unit {0}) × EcClient S
  rest first = bind first (λ p c. bind (answer qt send pass p c) (finish qt))

  authenticate-rest :
      (c : EcClient S)
      → authenticate qt send pass c
        ≡ rest
            ((send auth_request c.socket).0, record c { socket = (send auth_request c.socket).1 })
  unfolding authenticate
  authenticate-rest c = refl

  module _ (sent : S → List Packet) (logs : Logs send sent) where
    -- What may have been sent after the first request, given what it answered.
    Sends : Outcome Packet → EcClient S → List Packet → Type 0
    Sends first c now =
        (now ≡ sent c.socket)
        ⊎ ((salt : ℕ) × (challenge : Packet) × (first ≡ ok challenge)
            × (challenge.opcode ≡ Op.auth_salt)
            × (tag_int challenge TagName.passwd_salt ≡ some salt)
            × (now ≡ sent c.socket ++ auth_reply qt pass salt ∷ []))

    answer-Sends :
        (challenge : Packet) (c : EcClient S)
        → Sends
            (ok challenge)
            c
            (sent (bind (answer qt send pass challenge c) (finish qt)).1.socket)
    unfolding answer answer_salt Sends
    answer-Sends challenge c = elim (Bool-cases (challenge.opcode == Op.auth_salt)) [
      | inl e ↦ elim (Option-cases (tag_int challenge TagName.passwd_salt)) [
        | inl no_salt ↦ inl (rw (e, no_salt) refl)
        | inr (salt, has) ↦ inr (
          salt,
          challenge,
          refl,
          ground arith,
          has,
          rw (e, has)
              (ap sent (
                  bind-finish-socket (send (auth_reply qt pass salt) c.socket).0
                    (record c { socket = (send (auth_reply qt pass salt) c.socket).1 }))
                ∙ logs (auth_reply qt pass salt) c.socket),
        )
      ]
      | inr e ↦ inl (rw e (ap sent (finish-socket challenge c)))
    ]

    rest-Sends :
        (first : Outcome Packet) (c : EcClient S) → Sends first c (sent (rest (first, c)).1.socket)
    unfolding Sends
    rest-Sends (ok p) c = answer-Sends p c
    rest-Sends (err e) c = inl refl
    rest-Sends out_of_fuel c = inl refl

    -- Whatever the daemon answers, the client sends the authentication request, and nothing else
    -- but the salted hash of the password in answer to a challenge that carries that salt. The
    -- requests sent are a list to which each exchange adds its own.
    pub authenticate_sends :
        (c : EcClient S)
        → let now = sent (authenticate qt send pass c).1.socket in
          (now ≡ sent c.socket ++ auth_request ∷ [])
          ⊎ ((salt : ℕ) × (challenge : Packet) × ((send auth_request c.socket).0 ≡ ok challenge)
              × (challenge.opcode ≡ Op.auth_salt)
              × (tag_int challenge TagName.passwd_salt ≡ some salt)
              × (now ≡ sent c.socket ++ auth_request ∷ auth_reply qt pass salt ∷ []))
    unfolding Sends
    authenticate_sends c =
        rw (authenticate-rest c)
          (elim (rest-Sends (send auth_request c.socket).0
            (record c { socket = (send auth_request c.socket).1 })) [
              | inl once ↦ inl (once ∙ logs auth_request c.socket)
              | inr (salt, challenge, got, op, has, now) ↦ inr (
                salt,
                challenge,
                got,
                op,
                has,
                now
                    ∙ ap (λ ps. ps ++ auth_reply qt pass salt ∷ []) (logs auth_request c.socket)
                    ∙ append_assoc (sent c.socket) (auth_request ∷ [])
                        (auth_reply qt pass salt ∷ []),
              )
            ])

  -- The reply on which the handshake ends well: the first one, or the one to the salted hash.
  abbrev Accepts : Outcome Packet → EcClient S → Packet → Type 0
  Accepts first c last =
      (first ≡ ok last) ⊎ ((salt : ℕ) × ((send (auth_reply qt pass salt) c.socket).0 ≡ ok last))

  bind-finish-ok :
      (r : Outcome Packet) (c d : EcClient S)
      → bind (r, c) (finish qt) ≡ (ok tt, d)
      → (last : Packet) × (r ≡ ok last)
        × (last.opcode ≡ Op.auth_ok)
        × (d.server_version ≡ get_or (text "unknown") (tag_string last TagName.server_version))
  bind-finish-ok (ok p) c d e = let (op, version) = finish-ok p c d e in (p, refl, op, version)
  bind-finish-ok (err x) c d e = absurd (cc)
  bind-finish-ok out_of_fuel c d e = absurd (cc)

  abbrev Accepted : Outcome Packet → EcClient S → EcClient S → Type 0
  Accepted first c d =
      (last : Packet) × Accepts first c last
      × (last.opcode ≡ Op.auth_ok)
      × (d.server_version ≡ get_or (text "unknown") (tag_string last TagName.server_version))

  answer-Accepted :
      (first : Packet) (c d : EcClient S)
      → bind (answer qt send pass first c) (finish qt) ≡ (ok tt, d)
      → Accepted (ok first) c d
  unfolding answer answer_salt
  answer-Accepted first c d e = elim (Bool-cases (first.opcode == Op.auth_salt)) [
    | inl challenged ↦ elim (Option-cases (tag_int first TagName.passwd_salt)) [
      | inl no_salt ↦ absurd (cc (rw (challenged, no_salt) at e))
      | inr (salt, has) ↦
          let (last, got, op, version) =
            bind-finish-ok (send (auth_reply qt pass salt) c.socket).0 _ d
              (rw (challenged, has) at e) in
          (last, inr (salt, got), op, version)
    ]
    | inr plain ↦
        let (last, got, op, version) = bind-finish-ok (ok first) c d (rw plain at e) in
        (last, inl got, op, version)
  ]

  rest-Accepted :
      (first : Outcome Packet) (c d : EcClient S)
      → rest (first, c) ≡ (ok tt, d)
      → Accepted first c d
  rest-Accepted (ok p) c d e = answer-Accepted p c d e
  rest-Accepted (err x) c d e = absurd (cc)
  rest-Accepted out_of_fuel c d e = absurd (cc)

  -- Authentication succeeds only on an EC_OP_AUTH_OK reply, to the first request or to the salted
  -- hash, and the version kept is the one that this reply names, or "unknown".
  pub authenticate_ok :
      (c d : EcClient S)
      → authenticate qt send pass c ≡ (ok tt, d)
      → Accepted
          (send auth_request c.socket).0
          (record c { socket = (send auth_request c.socket).1 })
          d
  authenticate_ok c d e = rest-Accepted _ _ d (rw (authenticate-rest c) at e)
