-- ===== src/Ec/Outcome.antt =====
-- core/ec/client.h: errors of an exchange, and the results of calls on a client.
use amule_remote_qt.Ec.Bytes.{Text}

-- io: transport; auth_failed: credentials rejected; unexpected: opcode of the handshake;
-- remote: malformed reply; missing_salt: no password salt.
pub data Kind : Type 0 where
  io auth_failed unexpected remote missing_salt : Kind

pub record EcError : Type 0 where
  pub kind : Kind
  pub message : Text

-- `out_of_fuel` has no counterpart in the program.
pub data Outcome {ℓ} (A : Type ℓ) : Type ℓ where
  ok : A → Outcome A
  err : EcError → Outcome A
  out_of_fuel : Outcome A

-- A call on an object of state `S`.
abbrev pub Call : Type 0 → Type 0 → Type 0
Call S A = S → Outcome A × S

abbrev pub pure : {S A : Type 0} → A → Call S A
pure a s = (ok a, s)

abbrev pub throw : {S A : Type 0} → Kind → Text → Call S A
throw kind message s = (err (record { kind = kind; message = message }), s)

abbrev pub bind : {S A B : Type 0} → Outcome A × S → (A → Call S B) → Outcome B × S
bind (ok a, s) f = f a s
bind (err e, s) f = (err e, s)
bind (out_of_fuel, s) f = (out_of_fuel, s)

-- `if (!x) return std::unexpected(x.error());` before each next step.
infixl 5 ◌>>=◌
abbrev pub ◌>>=◌ : {S A B : Type 0} → Call S A → (A → Call S B) → Call S B
m >>= f = λ s. bind (m s) f
