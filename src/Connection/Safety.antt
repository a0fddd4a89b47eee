-- ===== src/Connection/Safety.antt =====
-- The invariant along whole runs, and what it means after a disconnect.
use zyncbase.Pending
use zyncbase.Connection.Reconnecting.{
  connect, handle_socket_close, handle_socket_error, open_socket, handshake_done,
  reconnect_timer_fired,
}
use zyncbase.Connection.{
  Connection, ConnectionOptions, effect, set_status, resolve_schema_sync, reject_schema_sync,
  new_connection,
}
use zyncbase.Connection.Invariant.{
  IsSane, connect-IsSane, disconnect-IsSane, close_with-IsSane, handle_ticket_error-IsSane,
  handle_handshake_failure-IsSane, liveness_timer_fired-IsSane, note_correlated_response-IsSane,
}
use zyncbase.Connection.Liveness.{stop_liveness, start_liveness, schedule, schedule_liveness_probe}
use zyncbase.Connection.Requests.{
  Inbound, schema_sync_message, ok_message, error_message, server_disconnect, push_message,
  send_request, send, handle_ok_response, handle_error_response, handle_token_expired,
  handle_schema_sync, refresh_finished, dispatch_inbound,
}
use zyncbase.Connection.Steps.{
  Input, connect_called, disconnect_called, ticket_acquired, ticket_failed, socket_opened,
  namespaces_set, handshake_failed, socket_error, socket_closed, reconnect_timeout,
  liveness_timeout, request, message, refresh_ended, step, run,
}
use zyncbase.Errors.{Thrown}
use zyncbase.Prelude.Result.{Result}
use zyncbase.Prelude.{ℕ, ◌≡◌, Bool, arith, refl, Option, none, some, List, [], ◌∷◌}

module _ {C R : Type 0} (o : ConnectionOptions) (scale : ℕ) where
  -- The fields that the invariant reads.
  abbrev Same : Connection C R → Connection C R → Type 0
  Same c d =
      (c.reconnect_attempt ≡ d.reconnect_attempt)
      × (c.reconnect_timer ≡ d.reconnect_timer)
      × (c.intentional_disconnect ≡ d.intentional_disconnect)
      × (c.liveness_timer ≡ d.liveness_timer)
      × (c.liveness_ping_id ≡ d.liveness_ping_id)

  IsSane-Same : (c d : Connection C R) → Same c d → IsSane o c → IsSane o d
  IsSane-Same c d (a, t, i, l, p) s = record {
    attempts = λ most h. rw (← a) (s.attempts most h);
    no_reconnect = λ h. ground (arith, s.no_reconnect);
    no_probe = λ h. ground (arith, s.no_probe);
    pinged = λ id h. ground (arith, s.pinged id);
  }

  send_request-Same :
      (is_setup is_open : Bool) (encoded : Result Thrown C) (c : Connection C R)
      → Same c (send_request is_setup is_open encoded c)
  unfolding send_request send effect
  send_request-Same is_setup is_open encoded c = ground arith

  handle_schema_sync-Same :
      (applied : Result Thrown Bool) (c : Connection C R) → Same c (handle_schema_sync applied c)
  unfolding handle_schema_sync effect resolve_schema_sync reject_schema_sync
  handle_schema_sync-Same applied c = ground arith

  handle_ok_response-IsSane :
      (id : ℕ) (decode : C → Result Thrown R) (c : Connection C R)
      → IsSane o c
      → IsSane o (handle_ok_response o scale id decode c).0
  unfolding handle_ok_response
  handle_ok_response-IsSane id decode c s =
      let noted = note_correlated_response-IsSane o scale id c s in
      record {
        attempts = λ most h. ground (arith, s.attempts most h, noted.attempts most h);
        no_reconnect = λ h. ground (arith, s.no_reconnect, noted.no_reconnect);
        no_probe = λ h. ground (arith, s.no_probe, noted.no_probe);
        pinged = λ i h. ground (arith, s.pinged i, noted.pinged i);
      }

  handle_error_response-IsSane :
      (id : Option ℕ) (reason : Thrown) (c : Connection C R)
      → IsSane o c
      → IsSane o (handle_error_response o scale id reason c).0
  unfolding handle_error_response
  handle_error_response-IsSane none reason c s = s
  handle_error_response-IsSane (some id) reason c s =
      let noted = note_correlated_response-IsSane o scale id c s in
      let settled = record c { pending = (Pending.reject id reason c.pending).0 } in
      let quiet : IsSane o settled = IsSane-Same c settled (refl, refl, refl, refl, refl) s in
      let after = note_correlated_response-IsSane o scale id settled quiet in
      record {
        attempts = λ most h.
            ground (arith, s.attempts most h, noted.attempts most h, after.attempts most h);
        no_reconnect = λ h. ground (arith, s.no_reconnect, noted.no_reconnect, after.no_reconnect);
        no_probe = λ h. ground (arith, s.no_probe, noted.no_probe, after.no_probe);
        pinged = λ i h. ground (arith, s.pinged i, noted.pinged i, after.pinged i);
      }

  start_liveness-IsSane :
      (r : ℕ) (c : Connection C R) → IsSane o c → IsSane o (start_liveness o scale r c)
  unfolding start_liveness stop_liveness schedule_liveness_probe schedule
  start_liveness-IsSane r c s = record {
    attempts = λ most h. ground (arith, s.attempts most h);
    no_reconnect = λ h. ground (arith, s.no_reconnect);
    no_probe = λ h. ground arith;
    pinged = λ id h. ground arith;
  }

  dispatch_inbound-IsSane :
      (m : Inbound C R) (c : Connection C R) → IsSane o c → IsSane o (dispatch_inbound o scale m c)
  unfolding dispatch_inbound handle_token_expired effect
  dispatch_inbound-IsSane (schema_sync_message applied) c s =
      IsSane-Same c _ (handle_schema_sync-Same applied c) s
  dispatch_inbound-IsSane (ok_message id decode) c s = handle_ok_response-IsSane id decode c s
  dispatch_inbound-IsSane (error_message id expired reason) c s =
      IsSane-Same (handle_error_response o scale id reason c).0 _ (ground arith)
        (handle_error_response-IsSane id reason c s)
  dispatch_inbound-IsSane (server_disconnect code said) c s =
      IsSane-Same c _ (refl, refl, refl, refl, refl) s
  dispatch_inbound-IsSane push_message c s = s

  reconnect_timer_fired-IsSane :
      (c : Connection C R) → IsSane o c → IsSane o (reconnect_timer_fired c)
  unfolding reconnect_timer_fired connect set_status effect stop_liveness
  reconnect_timer_fired-IsSane c s = record {
    attempts = λ most h. ground (arith, s.attempts most h);
    no_reconnect = λ h. ground (arith, s.no_reconnect);
    no_probe = λ h. ground (arith, s.no_probe);
    pinged = λ id h. ground (arith, s.pinged id);
  }

  pub step-IsSane : (i : Input C R) (c : Connection C R) → IsSane o c → IsSane o (step o scale i c)
  unfolding step open_socket handshake_done set_status effect handle_socket_error reject_schema_sync
      reconnect_timer_fired refresh_finished handle_socket_close stop_liveness
  step-IsSane connect_called c s = connect-IsSane o c s
  step-IsSane disconnect_called c s = disconnect-IsSane o c s
  step-IsSane ticket_acquired c s = IsSane-Same c _ (refl, refl, refl, refl, refl) s
  step-IsSane (ticket_failed r t) c s = handle_ticket_error-IsSane o scale r t c s
  step-IsSane (socket_opened r) c s = start_liveness-IsSane r c s
  step-IsSane namespaces_set c s = record {
    attempts = λ most h. omega arith;
    no_reconnect = s.no_reconnect;
    no_probe = s.no_probe;
    pinged = s.pinged;
  }
  step-IsSane (handshake_failed r t) c s = handle_handshake_failure-IsSane o scale r t c s
  step-IsSane socket_error c s = IsSane-Same c (handle_socket_error c) (ground arith) s
  step-IsSane (socket_closed code reason r) c s = close_with-IsSane o scale r _ _ (record {
    attempts = s.attempts;
    no_reconnect = s.no_reconnect;
    no_probe = λ h. refl;
    pinged = λ id h. cc;
  })
  step-IsSane reconnect_timeout c s = reconnect_timer_fired-IsSane c s
  step-IsSane (liveness_timeout is_open result) c s =
      liveness_timer_fired-IsSane o scale is_open result c s
  step-IsSane (request is_setup is_open encoded) c s =
      IsSane-Same c _ (send_request-Same is_setup is_open encoded c) s
  step-IsSane (message m) c s = dispatch_inbound-IsSane m c s
  step-IsSane (refresh_ended success) c s =
      IsSane-Same c (refresh_finished success c) (ground arith) s

  pub run-IsSane :
      (is : List (Input C R)) (c : Connection C R) → IsSane o c → IsSane o (run o scale is c)
  unfolding run
  run-IsSane [] c s = s
  run-IsSane (i ∷ is) c s = run-IsSane is (step o scale i c) (step-IsSane i c s)

  pub new_connection-IsSane : IsSane {C = C} {R = R} o new_connection
  unfolding new_connection
  new_connection-IsSane = record {
    attempts = λ most h. omega arith;
    no_reconnect = λ h. refl;
    no_probe = λ h. refl;
    pinged = λ id h. cc;
  }
