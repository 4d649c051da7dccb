-- ===== src/Examples/Working.antt =====
-- The worker with a daemon that answers every request with the same packet.
use amule_remote_qt.Base.{◌⊎◌, ◌≢◌, ℕ, suc, ◌≡◌, refl, true, false, some, List, [], ◌∷◌, ◌++◌, ltb}
use amule_remote_qt.Codes.Op
use amule_remote_qt.Ec.Bytes.{text}
use amule_remote_qt.Ec.Tag.{nil}
use amule_remote_qt.Ec.Outcome.{EcError, ok, err, io, remote}
use amule_remote_qt.Model.Types.{new_search_params}
use amule_remote_qt.Worker.State.{Worker, new_worker, Daemon, emit, log_message}
use amule_remote_qt.Worker.Commands.{run_connected}
use amule_remote_qt.Worker.Slots.{
  Command, connect_to_daemon, start_search, refresh, stop_search, disconnect, run,
}
use amule_remote_qt.Worker.Invariant.{Inv}
use amule_remote_qt.Worker.Histories.{run-new_worker-Inv}
use amule_remote_qt.Worker.Searching.{shown}
use amule_remote_qt.Worker.Searching.Histories.{run-new_worker-Told}
use amule_remote_qt.Worker.Failures.{HasLost, run_connected_fails}
use amule_remote_qt.Examples.Samples.{ascii_qt}

-- A client's state counts its requests.
abbrev quiet_daemon : Daemon ℕ
quiet_daemon = record {
  connect = λ host port password. ok 0;
  version = λ s. text "2.3.3";
  send = λ p s. (ok (record { opcode = Op.noop; tags = nil }), suc s);
  to_double = λ n. n;
  greater = λ a b. ltb b a;
  iterate = λ m. m;
}

abbrev session : List (ℕ × Command)
session =
    (0, connect_to_daemon (text "host") 4712 (text "secret"))
    ∷ ((10, start_search new_search_params)
        ∷ ((1_010, refresh) ∷ ((1_500, stop_search) ∷ ((2_000, disconnect) ∷ []))))

run-new_worker-Inv_example : Inv (run ascii_qt quiet_daemon session new_worker)
run-new_worker-Inv_example = run-new_worker-Inv ascii_qt quiet_daemon session

run-new_worker-Told_example :
    shown false (run ascii_qt quiet_daemon session new_worker).emitted
    ≡ (run ascii_qt quiet_daemon session new_worker).searching
run-new_worker-Told_example = run-new_worker-Told ascii_qt quiet_daemon session

-- A worker in the middle of a connection.
abbrev busy_worker : Worker ℕ
busy_worker = record new_worker { client = some 5; refreshing = true; searching = true }

abbrev refusal : EcError
refusal = record { kind = remote; message = text "search failed" }

run_connected_fails_example :
    ((refusal.kind ≡ io)
      × HasLost refusal.message
          (run_connected quiet_daemon 0 (λ s. (err refusal, suc s)) busy_worker))
    ⊎ ((refusal.kind ≢ io)
        × (run_connected quiet_daemon 0 (λ s. (err refusal, suc s)) busy_worker
            ≡ emit
                (log_message (text "command failed: " ++ text "search failed"))
                (record busy_worker { client = some 6 })))
run_connected_fails_example =
    run_connected_fails quiet_daemon 0 (λ s. (err refusal, suc s)) 5 6 refusal busy_worker refl refl
