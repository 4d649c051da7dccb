-- ===== src/Worker/Failures.antt =====
-- What a failed command leaves of the connection, in core/ec/worker.cpp.
use amule_remote_qt.Base.{
  ℕ, ◌≡◌, ◌≢◌, refl, ◌⊎◌, inl, inr, true, false, none, some, List, [], ◌∷◌, ◌++◌, Bool-cases,
}
use amule_remote_qt.Ec.Bytes.{Text, text}
use amule_remote_qt.Ec.Outcome.{
  Call, Kind, EcError, err, io, auth_failed, unexpected, remote, missing_salt,
}
use amule_remote_qt.Worker.State.{Worker, Daemon, Signal, emit, log_message, status_changed, error}
use amule_remote_qt.Worker.Commands.{
  is_io, teardown, end_search, report, after_command, run_with, run_connected,
}

is_io-cases : (k : Kind) → ((k ≡ io) × (is_io k ≡ true)) ⊎ ((k ≢ io) × (is_io k ≡ false))
is_io-cases io = inl (refl, refl)
is_io-cases auth_failed = inr ((λ e. absurd (cc)), refl)
is_io-cases unexpected = inr ((λ e. absurd (cc)), refl)
is_io-cases remote = inr ((λ e. absurd (cc)), refl)
is_io-cases missing_salt = inr ((λ e. absurd (cc)), refl)

module _ {S : Type 0} where
  -- The worker has no connection, search or sources, and says so last of all.
  pub record HasLost (message : Text) (w : Worker S) : Type 0 where
    pub client : w.client ≡ none
    pub stopped : w.refreshing ≡ false
    pub no_search : w.searching ≡ false
    pub no_sources : w.sources ≡ []
    pub said : (before : List Signal) × (w.emitted ≡ before ++ status_changed error message ∷ [])

  teardown-HasLost : (message : Text) (w : Worker S) → HasLost message (teardown message error w)
  unfolding teardown end_search
  teardown-HasLost message w = elim (Bool-cases w.searching) [
    | inl e ↦ rw e (record {
      client = refl;
      stopped = refl;
      no_search = refl;
      no_sources = refl;
      said = (_, refl);
    })
    | inr e ↦ record {
      client = rw e refl;
      stopped = rw e refl;
      no_search = rw e refl;
      no_sources = rw e refl;
      said = rw e (_, refl);
    }
  ]

  -- A command whose request fails. If the failure is the transport's, the connection is given up:
  -- no client, no timer, no search and no sources are left, and the last signal is the error. After
  -- any other failure the worker is as before, but for the client, which is as the call left it,
  -- and for a message.
  pub run_connected_fails :
      (d : Daemon S) (now : ℕ) (call : Call S (Unit {0})) (s t : S) (e : EcError) (w : Worker S)
      → w.client ≡ some s
      → call s ≡ (err e, t)
      → ((e.kind ≡ io) × HasLost e.message (run_connected d now call w))
        ⊎ ((e.kind ≢ io)
            × (run_connected d now call w
                ≡ emit
                    (log_message (text "command failed: " ++ e.message))
                    (record w { client = some t })))
  unfolding run_connected run_with after_command report
  run_connected_fails d now call s t e w client failed = elim (is_io-cases e.kind) [
    | inl (kind, b) ↦ inl (kind, rw (client, failed, b) (teardown-HasLost e.message _))
    | inr (kind, b) ↦ inr (kind, rw (client, failed, b) refl)
  ]
