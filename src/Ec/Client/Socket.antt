-- ===== src/Ec/Client/Socket.antt =====
-- The QTcpSocket of core/ec/client.h, as the operations that the client calls.
use amule_remote_qt.Base.{ℕ, ◌+◌, ◌≤◌, ◌<◌, ◌≡◌, ◌≢◌, Bool, true, [], ◌++◌, Option, some, length}
use amule_remote_qt.Ec.Bytes.{Bytes, Text}

-- A wait takes its limit in milliseconds. `write` gives `none` where Qt gives -1.
pub record Socket (S : Type 0) : Type 0 where
  pub connect_to_host : Text → ℕ → S → S
  pub wait_for_connected : ℕ → S → Bool × S
  pub set_low_delay : S → S
  pub error_string : S → Text
  pub is_connected : S → Bool
  pub write : Bytes → S → Option ℕ × S
  pub bytes_to_write : S → ℕ
  pub wait_for_bytes_written : ℕ → S → Bool × S
  pub bytes_available : S → ℕ
  pub wait_for_ready_read : ℕ → S → Bool × S
  pub read : ℕ → S → Bytes × S

-- What Qt documents of a connection on which the peer's bytes `pending` still arrive in time:
-- a wait with nothing at hand to read succeeds and makes bytes available, a wait loses none, and a
-- read takes at most so many bytes from the front, and one at least where there are some at hand.
pub record IsDelivering {S : Type 0} (sock : Socket S) (pending : S → Bytes) : Type 0 where
  pub wait_ready :
      (ms : ℕ) (s : S)
      → sock.bytes_available s ≡ 0
      → pending s ≢ []
      → (sock.wait_for_ready_read ms s).0 ≡ true
  pub wait_available :
      (ms : ℕ) (s : S)
      → sock.bytes_available s ≡ 0
      → pending s ≢ []
      → 0 < sock.bytes_available (sock.wait_for_ready_read ms s).1
  pub wait_keeps : (ms : ℕ) (s : S) → pending (sock.wait_for_ready_read ms s).1 ≡ pending s
  pub read_front : (n : ℕ) (s : S) → pending s ≡ (sock.read n s).0 ++ pending (sock.read n s).1
  pub read_most : (n : ℕ) (s : S) → length (sock.read n s).0 ≤ n
  pub read_some :
      (n : ℕ) (s : S) → 0 < n → 0 < sock.bytes_available s → 0 < length (sock.read n s).0

-- What Qt documents of a connection to a peer that takes what is sent in time: an open socket
-- buffers all that is written to it, and while there is something left to write, a wait succeeds
-- and leaves less of it.
pub record IsSending {S : Type 0} (sock : Socket S) : Type 0 where
  pub writes :
      (frame : Bytes) (s : S)
      → sock.is_connected s ≡ true
      → (sock.write frame s).0 ≡ some (length frame)
  pub buffers :
      (frame : Bytes) (s : S)
      → sock.bytes_to_write (sock.write frame s).1 ≤ sock.bytes_to_write s + length frame
  pub wait_written :
      (ms : ℕ) (s : S) → 0 < sock.bytes_to_write s → (sock.wait_for_bytes_written ms s).0 ≡ true
  pub wait_less :
      (ms : ℕ) (s : S)
      → 0 < sock.bytes_to_write s
      → sock.bytes_to_write (sock.wait_for_bytes_written ms s).1 < sock.bytes_to_write s

-- The states that waits for bytes to be written lead to.
pub data Waits {S : Type 0} (sock : Socket S) (ms : ℕ) (s : S) : S → Type 0 where
  at_once : Waits sock ms s s
  later : {t : S} → Waits sock ms s t → Waits sock ms s (sock.wait_for_bytes_written ms t).1
