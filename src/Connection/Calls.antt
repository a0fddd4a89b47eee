-- ===== src/Connection/Calls.antt =====
-- The calls of `PendingRequests` behind each step of a connection.
use zyncbase.Pending
use zyncbase.Connection.Steps.{
  request, message, refresh_ended, connect_called, disconnect_called, ticket_acquired,
  namespaces_set, socket_error, reconnect_timeout, liveness_timeout, socket_closed,
  handshake_failed, socket_opened, ticket_failed, Input, step, run,
}
use zyncbase.Connection.Requests.{
  push_message, server_disconnect, error_message, ok_message, schema_sync_message, send_request,
  send, handle_ok_response, handle_error_response, dispatch_inbound, Inbound, handle_token_expired,
  refresh_finished, handle_schema_sync,
}
use zyncbase.Pending.Laws.{count, run_once}
use zyncbase.Connection.{
  probe, ping_timeout, Connection, ConnectionOptions, effect, set_status, resolve_schema_sync,
  reject_schema_sync, is_connected, new_connection,
}
use zyncbase.Pending.{Call, sent, taken, answered, failed, closed}
use zyncbase.Prelude.Result.{Result, ok, err, Result-cases}
use zyncbase.Connection.Liveness.{
  stop_liveness, schedule, schedule_liveness_probe, start_liveness, ping, PingResult,
  send_liveness_ping, liveness_timer_fired, is_ping,
}
use zyncbase.Connection.Reconnecting.{
  handle_socket_error, connect, open_socket, handshake_done, reconnect_timer_fired, network_error,
}
use zyncbase.Errors.{Thrown, zync}
use zyncbase.Prelude.{
  ℕ, ◌≡◌, refl, Option, arith, sym, inl, inr, Bool, not, ◌&&◌, List, [], ◌∷◌, Bool-cases,
  Option-cases, true, none, some, ltb, ◌+◌, ◌≤◌, ap, ◌∙◌, ◌++◌,
}
use zyncbase.Prelude.Text.{text}
use zyncbase.Connection.Effects.{
  handle_socket_close-pending, handle_handshake_failure-pending, handle_ticket_error-pending,
  disconnect-pending, note_correlated_response-pending,
}

module _ {C R : Type 0} where
  -- The calls that the pending requests get, one list for each step.
  abbrev pub Follows : Pending.Pending C R Thrown → Pending.Pending C R Thrown → Type 0
  Follows p q = (cs : List (Call C R Thrown)) × (Pending.run cs p ≡ q)

  run-append :
      (cs ds : List (Call C R Thrown)) (p : Pending.Pending C R Thrown)
      → Pending.run (cs ++ ds) p ≡ Pending.run ds (Pending.run cs p)
  unfolding Pending.run
  run-append [] ds p = refl
  run-append (c ∷ cs) ds p = run-append cs ds (Pending.call c p)

  Follows-trans : (p q s : Pending.Pending C R Thrown) → Follows p q → Follows q s → Follows p s
  Follows-trans p q s (cs, e) (ds, e') = (cs ++ ds, run-append cs ds p ∙ ap (Pending.run ds) e ∙ e')

module _ {C R : Type 0} (o : ConnectionOptions) (scale : ℕ) where
  send_request-Follows :
      (is_setup is_open : Bool) (encoded : Result Thrown C) (c : Connection C R)
      → Follows c.pending (send_request is_setup is_open encoded c).pending
  unfolding send_request send effect Pending.run Pending.send Pending.next_id Pending.register
  send_request-Follows is_setup is_open (err t) c = (taken ∷ [], refl)
  send_request-Follows is_setup is_open (ok x) c =
      elim (Bool-cases (not is_setup && not (is_connected c))) [
        | inl early ↦ (
          sent x
              ∷ failed c.pending.next_request_id
                  (zync (network_error (text "Connection is not ready") true))
              ∷ [],
          rw early refl,
        )
        | inr later ↦ elim (Bool-cases (c.socket && is_open)) [
          | inl there ↦ (sent x ∷ [], rw (later, there) refl)
          | inr gone ↦ (
            sent x
                ∷ failed c.pending.next_request_id
                    (zync (network_error (text "WebSocket is not connected") true))
                ∷ [],
            rw (later, gone) refl,
          )
        ]
      ]

  handle_ok_response-Follows :
      (id : ℕ) (decode : C → Result Thrown R) (c : Connection C R)
      → Follows c.pending (handle_ok_response o scale id decode c).0.pending
  unfolding handle_ok_response Pending.run
  handle_ok_response-Follows id decode c = elim (Bool-cases (is_ping id c)) [
    | inl pinged ↦ ([], ground (arith, note_correlated_response-pending o scale id c))
    | inr other ↦ elim (Option-cases (Pending.context id c.pending)) [
      | inl unknown ↦ ([], ground (arith, note_correlated_response-pending o scale id c))
      | inr (x, known) ↦ elim (Result-cases (decode x)) [
        | inr (value, good) ↦
            (answered id value ∷ [], ground (arith, note_correlated_response-pending o scale id c))
        | inl (t, bad) ↦
            (failed id t ∷ [], ground (arith, note_correlated_response-pending o scale id c))
      ]
    ]
  ]

  handle_error_response-Follows :
      (id : Option ℕ) (reason : Thrown) (c : Connection C R)
      → Follows c.pending (handle_error_response o scale id reason c).0.pending
  unfolding handle_error_response Pending.run
  handle_error_response-Follows none reason c = ([], refl)
  handle_error_response-Follows (some id) reason c = elim (Bool-cases (is_ping id c)) [
    | inl pinged ↦ ([], ground (arith, note_correlated_response-pending o scale id c))
    | inr other ↦ (
      failed id reason ∷ [],
      ground (
        arith,
        note_correlated_response-pending o scale id
            (record c { pending = (Pending.reject id reason c.pending).0 }),
      ),
    )
  ]

  send_liveness_ping-Follows :
      (is_open : Bool) (result : PingResult) (c : Connection C R)
      → Follows c.pending (send_liveness_ping o scale is_open result c).pending
  unfolding send_liveness_ping Pending.run ping effect
  send_liveness_ping-Follows is_open result c =
      elim (Bool-cases (c.socket && is_open && not c.intentional_disconnect)) [
        | inr quiet ↦ ([], ground arith)
        | inl due ↦ (taken ∷ [], ground arith)
      ]

  liveness_timer_fired-Follows :
      (is_open : Bool) (result : PingResult) (c : Connection C R)
      → Follows c.pending (liveness_timer_fired o scale is_open result c).pending
  unfolding liveness_timer_fired Pending.run effect schedule
  liveness_timer_fired-Follows is_open result c = elim (Option-cases c.liveness_timer) [
    | inl idle ↦ ([], ground arith)
    | inr (ping_timeout id, late) ↦ ([], ground arith)
    | inr (probe wait rest, due) ↦ elim (Bool-cases (ltb 0 rest)) [
      | inl more ↦ ([], ground arith)
      | inr done ↦
          let (cs, e) =
            send_liveness_ping-Follows is_open result (record c { liveness_timer = none }) in
          (cs, rw (due, done) e)
    ]
  ]

  handle_schema_sync-pending :
      (applied : Result Thrown Bool) (c : Connection C R)
      → (handle_schema_sync applied c).pending ≡ c.pending
  unfolding handle_schema_sync effect resolve_schema_sync reject_schema_sync
  handle_schema_sync-pending applied c = ground arith

  dispatch_inbound-Follows :
      (m : Inbound C R) (c : Connection C R)
      → Follows c.pending (dispatch_inbound o scale m c).pending
  unfolding dispatch_inbound handle_token_expired effect Pending.run
  dispatch_inbound-Follows (schema_sync_message applied) c =
      ([], sym (handle_schema_sync-pending applied c))
  dispatch_inbound-Follows (ok_message id decode) c = handle_ok_response-Follows id decode c
  dispatch_inbound-Follows (error_message id expired reason) c =
      let (cs, e) = handle_error_response-Follows id reason c in (cs, ground (arith, e))
  dispatch_inbound-Follows (server_disconnect code said) c = ([], refl)
  dispatch_inbound-Follows push_message c = ([], refl)

  step-Follows : (i : Input C R) (c : Connection C R) → Follows c.pending (step o scale i c).pending
  unfolding step Pending.run Pending.call connect effect set_status stop_liveness open_socket
      start_liveness schedule_liveness_probe schedule handshake_done handle_socket_error
      reject_schema_sync reconnect_timer_fired refresh_finished
  step-Follows connect_called c = ([], refl)
  step-Follows disconnect_called c = (closed _ ∷ [], sym (disconnect-pending o scale c))
  step-Follows ticket_acquired c = ([], refl)
  step-Follows (ticket_failed r t) c = ([], sym (handle_ticket_error-pending o scale r t c))
  step-Follows (socket_opened r) c = ([], ground arith)
  step-Follows namespaces_set c = ([], refl)
  step-Follows (handshake_failed r t) c =
      (closed t ∷ [], sym (handle_handshake_failure-pending o scale r t c))
  step-Follows socket_error c = ([], ground arith)
  step-Follows (socket_closed code reason r) c =
      (closed _ ∷ [], sym (handle_socket_close-pending o scale code reason r c))
  step-Follows reconnect_timeout c = ([], ground arith)
  step-Follows (liveness_timeout is_open result) c = liveness_timer_fired-Follows is_open result c
  step-Follows (request is_setup is_open encoded) c =
      send_request-Follows is_setup is_open encoded c
  step-Follows (message m) c = dispatch_inbound-Follows m c
  step-Follows (refresh_ended success) c = ([], ground arith)

  run-Follows :
      (is : List (Input C R)) (c : Connection C R) → Follows c.pending (run o scale is c).pending
  unfolding run Pending.run
  run-Follows [] c = ([], refl)
  run-Follows (i ∷ is) c =
      Follows-trans _ _ _ (step-Follows i c) (run-Follows is (step o scale i c))

-- Whatever happens to a new ConnectionManager, in whatever order, an id is pending or settled once
-- at most.
pub run-settled_once :
    {C R : Type 0} (o : ConnectionOptions) (scale : ℕ) (is : List (Input C R)) (id : ℕ)
    → count id (run o scale is new_connection).pending.entries
        + count id (run o scale is new_connection).pending.log
      ≤ 1
unfolding new_connection
run-settled_once o scale is id =
    let (cs, e) = run-Follows o scale is new_connection in
    let (total, most) = run_once cs id in rw (← e) (omega (arith, total, most))
