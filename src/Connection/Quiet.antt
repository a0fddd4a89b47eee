-- ===== src/Connection/Quiet.antt =====
-- What a disconnect of the application means for everything that comes after it.
use zyncbase.Pending
use zyncbase.Connection.{
  Connection, ConnectionOptions, Status, connecting, connected, reconnecting, disconnected, effect,
  set_status, resolve_schema_sync, reject_schema_sync, new_connection,
}
use zyncbase.Connection.Invariant.{IsSane, disconnect-IsSane}
use zyncbase.Connection.Safety.{step-IsSane, run-IsSane, new_connection-IsSane}
use zyncbase.Connection.Liveness.{
  stop_liveness, start_liveness, schedule, schedule_liveness_probe, ping, send_liveness_ping,
  liveness_timer_fired, note_correlated_response, PingResult,
}
use zyncbase.Connection.Reconnecting.{
  disconnect, close_with, will_retry_after, handle_socket_close, handle_socket_error,
  teardown_socket, handle_handshake_failure, should_reconnect_after_handshake, handle_ticket_error,
  open_socket, handshake_done, reconnect_timer_fired,
}
use zyncbase.Connection.Requests.{
  Inbound, schema_sync_message, ok_message, error_message, server_disconnect, push_message,
  send_request, send, handle_ok_response, handle_error_response, handle_token_expired,
  handle_schema_sync, refresh_finished, dispatch_inbound,
}
use zyncbase.Connection.Steps.{
  Input, connect_called, disconnect_called, ticket_acquired, ticket_failed, socket_opened,
  namespaces_set, handshake_failed, socket_error, socket_closed, reconnect_timeout,
  liveness_timeout, request, message, refresh_ended, step, run,
}
use zyncbase.Errors.{Thrown, ZyncBaseError}
use zyncbase.Prelude.Result.{Result}
use zyncbase.Prelude.{ℕ, ◌≡◌, refl, Bool, true, false, Option, none, some, List, [], ◌∷◌, arith}

abbrev pub is_trying : Status → Bool
is_trying connecting = true
is_trying reconnecting = true
is_trying connected = false
is_trying disconnected = false

-- `connect` is not called.
abbrev pub NeverConnects : {C R : Type 0} → List (Input C R) → Type 0
NeverConnects [] = Unit {0}
NeverConnects (connect_called ∷ is) = ⊥
NeverConnects (i ∷ is) = NeverConnects is

module _ {C R : Type 0} (o : ConnectionOptions) (scale : ℕ) where
  -- A client that was disconnected on purpose stays so, and does not try to connect.
  abbrev IsGone : Connection C R → Type 0
  IsGone c = (c.intentional_disconnect ≡ true) × (is_trying c.current_status ≡ false)

  close_with-IsGone :
      (r : ℕ) (e : ZyncBaseError) (c : Connection C R)
      → IsGone c
      → IsGone (close_with o scale r e c)
  unfolding close_with set_status effect reject_schema_sync will_retry_after
  close_with-IsGone r e c g = ground (arith, g.0, g.1)

  handle_ticket_error-IsGone :
      (r : ℕ) (t : Thrown) (c : Connection C R)
      → IsGone c
      → IsGone (handle_ticket_error o scale r t c)
  unfolding handle_ticket_error set_status effect reject_schema_sync
  handle_ticket_error-IsGone r t c g = ground (arith, g.0, g.1)

  handle_handshake_failure-IsGone :
      (r : ℕ) (t : Thrown) (c : Connection C R)
      → IsGone c
      → IsGone (handle_handshake_failure o scale r t c)
  unfolding handle_handshake_failure set_status effect reject_schema_sync teardown_socket
      stop_liveness should_reconnect_after_handshake
  handle_handshake_failure-IsGone r t c g = ground (arith, g.0, g.1)

  liveness_timer_fired-IsGone :
      (is_open : Bool) (result : PingResult) (c : Connection C R)
      → IsGone c
      → IsGone (liveness_timer_fired o scale is_open result c)
  unfolding liveness_timer_fired schedule effect send_liveness_ping ping
  liveness_timer_fired-IsGone is_open result c g = ground (arith, g.0, g.1)

  note_correlated_response-IsGone :
      (id : ℕ) (c : Connection C R) → IsGone c → IsGone (note_correlated_response o scale id c)
  unfolding note_correlated_response schedule_liveness_probe schedule
  note_correlated_response-IsGone id c g = ground (arith, g.0, g.1)

  send_request-IsGone :
      (is_setup is_open : Bool) (encoded : Result Thrown C) (c : Connection C R)
      → IsGone c
      → IsGone (send_request is_setup is_open encoded c)
  unfolding send_request send effect
  send_request-IsGone is_setup is_open encoded c g = ground (arith, g.0, g.1)

  handle_error_response-IsGone :
      (id : Option ℕ) (reason : Thrown) (c : Connection C R)
      → IsGone c
      → IsGone (handle_error_response o scale id reason c).0
  unfolding handle_error_response
  handle_error_response-IsGone none reason c g = g
  handle_error_response-IsGone (some id) reason c g =
      let noted = note_correlated_response-IsGone id c g in
      let after =
        note_correlated_response-IsGone id
          (record c { pending = (Pending.reject id reason c.pending).0 }) g in
      ground (arith, noted.0, noted.1, after.0, after.1)

  handle_ok_response-IsGone :
      (id : ℕ) (decode : C → Result Thrown R) (c : Connection C R)
      → IsGone c
      → IsGone (handle_ok_response o scale id decode c).0
  unfolding handle_ok_response
  handle_ok_response-IsGone id decode c g =
      let noted = note_correlated_response-IsGone id c g in ground (arith, noted.0, noted.1)

  dispatch_inbound-IsGone :
      (m : Inbound C R) (c : Connection C R) → IsGone c → IsGone (dispatch_inbound o scale m c)
  unfolding dispatch_inbound handle_token_expired effect handle_schema_sync resolve_schema_sync
      reject_schema_sync
  dispatch_inbound-IsGone (schema_sync_message applied) c g = ground (arith, g.0, g.1)
  dispatch_inbound-IsGone (ok_message id decode) c g = handle_ok_response-IsGone id decode c g
  dispatch_inbound-IsGone (error_message id expired reason) c g =
      let h = handle_error_response-IsGone id reason c g in ground (arith, h.0, h.1)
  dispatch_inbound-IsGone (server_disconnect code said) c g = g
  dispatch_inbound-IsGone push_message c g = g

  step-IsGone :
      (i : Input C R) (is : List (Input C R)) (c : Connection C R)
      → NeverConnects (i ∷ is)
      → IsSane o c
      → IsGone c
      → IsGone (step o scale i c) × NeverConnects is
  unfolding step disconnect open_socket handshake_done set_status effect handle_socket_error
      reject_schema_sync reconnect_timer_fired refresh_finished handle_socket_close stop_liveness
      start_liveness schedule_liveness_probe schedule
  step-IsGone connect_called is c never s g = absurd never
  step-IsGone disconnect_called is c never s g = (ground arith, never)
  step-IsGone ticket_acquired is c never s g = (g, never)
  step-IsGone (ticket_failed r t) is c never s g = (handle_ticket_error-IsGone r t c g, never)
  step-IsGone (socket_opened r) is c never s g = (ground (arith, g.0, g.1), never)
  step-IsGone namespaces_set is c never s g = ((g.0, refl), never)
  step-IsGone (handshake_failed r t) is c never s g =
      (handle_handshake_failure-IsGone r t c g, never)
  step-IsGone socket_error is c never s g = (ground (arith, g.0, g.1), never)
  step-IsGone (socket_closed code reason r) is c never s g = (close_with-IsGone r _ _ g, never)
  step-IsGone reconnect_timeout is c never s g =
      (ground (arith, g.0, g.1, s.no_reconnect g.0), never)
  step-IsGone (liveness_timeout is_open result) is c never s g =
      (liveness_timer_fired-IsGone is_open result c g, never)
  step-IsGone (request is_setup is_open encoded) is c never s g =
      (send_request-IsGone is_setup is_open encoded c g, never)
  step-IsGone (message m) is c never s g = (dispatch_inbound-IsGone m c g, never)
  step-IsGone (refresh_ended success) is c never s g = (ground (arith, g.0, g.1), never)

  run-IsGone :
      (is : List (Input C R)) (c : Connection C R)
      → NeverConnects is
      → IsSane o c
      → IsGone c
      → IsSane o (run o scale is c) × IsGone (run o scale is c)
  unfolding run
  run-IsGone [] c never s g = (s, g)
  run-IsGone (i ∷ is) c never s g =
      let (gone, later) = step-IsGone i is c never s g in
      run-IsGone is (step o scale i c) later (step-IsSane o scale i c s) gone

-- The connection after some history, a disconnect, and what comes then.
abbrev pub afterwards :
    {C R : Type 0} → ConnectionOptions → ℕ → (before after : List (Input C R)) → Connection C R
afterwards o scale before after = run o scale after (disconnect (run o scale before new_connection))

-- After any history and a disconnect, as long as `connect` is not called again, whatever else
-- happens: no reconnect is planned, no liveness timer runs, and the status is neither connecting nor
-- reconnecting.
pub run-disconnect-quiet :
    {C R : Type 0} (o : ConnectionOptions) (scale : ℕ) (before after : List (Input C R))
    → NeverConnects after
    → ((afterwards o scale before after).reconnect_timer ≡ none)
      × ((afterwards o scale before after).liveness_timer ≡ none)
      × (is_trying (afterwards o scale before after).current_status ≡ false)
unfolding disconnect set_status effect reject_schema_sync stop_liveness
run-disconnect-quiet o scale before after never =
    let c = run o scale before new_connection in
    let sane =
      disconnect-IsSane o c
        (run-IsSane o scale before new_connection (new_connection-IsSane o scale)) in
    let (s, gone) = run-IsGone o scale after (disconnect c) never sane (ground arith) in
    (s.no_reconnect gone.0, s.no_probe gone.0, gone.1)
