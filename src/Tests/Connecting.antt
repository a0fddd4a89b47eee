-- ===== src/Tests/Connecting.antt =====
-- Runs of connection.ts of sdk/typescript/src, and its theorems at concrete inputs.
use zyncbase.Connection.{Connection, ConnectionOptions, connected, reconnecting, new_connection}
use zyncbase.Connection.Calls.{run-settled_once}
use zyncbase.Connection.Invariant.{IsSane}
use zyncbase.Connection.Outcomes.{
  IsCutOff, WillTry, HasStopped, cause, MayRetry, MustStop, handle_socket_close-outcome,
  run_new-IsSane,
}
use zyncbase.Connection.Quiet.{run-disconnect-quiet, afterwards, is_trying}
use zyncbase.Connection.Reconnecting.{handle_socket_close}
use zyncbase.Connection.Steps.{
  Input, connect_called, disconnect_called, ticket_acquired, socket_opened, namespaces_set,
  socket_closed, request, run,
}
use zyncbase.Pending.Laws.{count}
use zyncbase.Prelude.Result.{ok}
use zyncbase.Prelude.{ℕ, ◌+◌, ◌≤◌, ◌≡◌, refl, ◌⊎◌, true, false, none, some, List, [], ◌∷◌}

abbrev options : ConnectionOptions
options = record {
  reconnect = none;
  backoff = record { base = some 1000; max = none; jitter = some false };
  max_reconnect_attempts = some 3;
  liveness_enabled = true;
  liveness_interval = 15000;
  liveness_timeout = 10000;
  token_provider = false;
}

abbrev Inputs : Type 0
Inputs = List (Input ℕ ℕ)

-- A client that has connected and sent a request.
abbrev connecting_up : Inputs
connecting_up =
    connect_called
    ∷ ticket_acquired
    ∷ socket_opened 5
    ∷ namespaces_set
    ∷ request false true (ok 7)
    ∷ []

abbrev up : Connection ℕ ℕ
up = run options 10 connecting_up new_connection

up_test : up.current_status ≡ connected
unfolding run new_connection
up_test = refl

-- The socket closes, and the next attempt is planned.
lost_test : (handle_socket_close options 10 1006 [] 5 up).current_status ≡ reconnecting
unfolding run new_connection handle_socket_close
lost_test = refl

-- The ticket arrives after the disconnect: the client connects all the same.
late_ticket_test :
    (run options 10
      (connect_called ∷ disconnect_called ∷ ticket_acquired ∷ socket_opened 5 ∷ namespaces_set ∷ [])
      (new_connection {C = ℕ} {R = ℕ})).current_status
    ≡ connected
unfolding run new_connection
late_ticket_test = refl

run-settled_once_example : count 1 up.pending.entries + count 1 up.pending.log ≤ 1
run-settled_once_example = run-settled_once options 10 connecting_up 1

run_new-IsSane_example : IsSane options up
run_new-IsSane_example = run_new-IsSane options 10 connecting_up

run-disconnect-quiet_example :
    ((afterwards options 10 connecting_up (socket_closed 1006 [] 5 ∷ [])).reconnect_timer ≡ none)
    × ((afterwards options 10 connecting_up (socket_closed 1006 [] 5 ∷ [])).liveness_timer ≡ none)
    × (is_trying (afterwards options 10 connecting_up (socket_closed 1006 [] 5 ∷ [])).current_status
        ≡ false)
run-disconnect-quiet_example =
    run-disconnect-quiet options 10 connecting_up (socket_closed 1006 [] 5 ∷ []) tt

handle_socket_close-outcome_example :
    IsCutOff options 10 (handle_socket_close options 10 1006 [] 5 up)
    × ((MayRetry options 10 (cause options 10 1006 [] up) up
          × WillTry options 10 5 up (handle_socket_close options 10 1006 [] 5 up))
        ⊎ (MustStop options 10 (cause options 10 1006 [] up) up
            × HasStopped options 10 up (handle_socket_close options 10 1006 [] 5 up)))
handle_socket_close-outcome_example = handle_socket_close-outcome options 10 1006 [] 5 up
