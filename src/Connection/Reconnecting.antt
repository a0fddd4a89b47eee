-- ===== src/Connection/Reconnecting.antt =====
-- Connecting, the end of a connection, and the next attempt. `scale` and `r` stand for the random
-- number r / scale of the jitter, as in `backoff_delay`.
use zyncbase.Pending
use zyncbase.Connection.{
  is_connected, Connection, ConnectionOptions, connecting, connected, reconnecting, disconnected,
  DisconnectDetail, effect, set_status, connected_event, disconnected_event, reconnecting_event,
  error_event, close_socket, waiting, reject_schema_sync,
}
use zyncbase.Connection.Closing.{socket_close_error, close_reason}
use zyncbase.Connection.Liveness.{stop_liveness}
use zyncbase.Errors.{
  client_disconnect, retries_exhausted, connection_failed, Category, network, ZyncBaseError,
  new_error, Thrown, zync, to_connection_error, message_or,
}
use zyncbase.Retry.{backoff_delay, or_else}
use zyncbase.Prelude.{
  ℕ, ◌+◌, Bool, true, false, not, ◌&&◌, ◌||◌, Option, none, some, ltb, if◌then◌else◌, is_some,
}
use zyncbase.Prelude.Text.{Text, text}

-- `attempt < (maxReconnectAttempts ?? Infinity)`
abbrev pub below_max : ConnectionOptions → ℕ → Bool
below_max o attempt = elim o.max_reconnect_attempts [ none ↦ true | some most ↦ ltb attempt most ]

abbrev pub network_error : Text → Bool → ZyncBaseError
network_error message retryable = new_error message connection_failed network retryable

-- `error?.message ?? "Retries exhausted"` and `error?.category ?? "network"`
abbrev pub category_or_network : Option Thrown → Category
category_or_network (some (zync e)) = e.category
category_or_network _ = network

abbrev pub exhausted : Option Thrown → ℕ → DisconnectDetail
exhausted error attempt = record {
  code = retries_exhausted;
  reason = elim error [
    | none ↦ text "Retries exhausted"
    | some t ↦ message_or (text "Retries exhausted") t
  ];
  category = category_or_network error;
  retryable = false;
  attempt = attempt;
}

-- `_computeBackoffDelay`
unfoldable pub compute_backoff_delay : ConnectionOptions → (scale r attempt : ℕ) → ℕ
unfolding backoff_delay
compute_backoff_delay o scale r attempt = backoff_delay scale r attempt o.backoff

-- `err instanceof ZyncBaseError ? err.retryable : true`
abbrev pub retryable_or_true : Thrown → Bool
retryable_or_true (zync e) = e.retryable
retryable_or_true t = true

module _ {C R : Type 0} where
  -- `handleSocketError`, less the promise of `connect`, which it rejects.
  unfoldable pub handle_socket_error : Connection C R → Connection C R
  unfolding effect reject_schema_sync new_error
  handle_socket_error c =
      let error = zync (network_error (text "WebSocket error") true) in
      effect (error_event error) (reject_schema_sync error c)

  -- `teardownSocket`
  unfoldable pub teardown_socket : Connection C R → Connection C R
  unfolding effect
  teardown_socket c = if c.socket then effect close_socket (record c { socket = false }) else c

  -- `connect` up to the request for a ticket, and from the ticket on.
  unfoldable pub connect : Connection C R → Connection C R
  unfolding set_status stop_liveness
  connect c =
      let reset = record c { intentional_disconnect = false; pending_disconnect_error = none } in
      record (set_status connecting none none none (stop_liveness reset)) { schema_sync = waiting }

  unfoldable pub open_socket : Connection C R → Connection C R
  open_socket c = record c { socket = true }

  -- The last step of `ws.onopen`, when both namespaces are set.
  unfoldable pub handshake_done : Connection C R → Connection C R
  unfolding effect set_status
  handshake_done c =
      effect connected_event
        (set_status connected none none none (record c { reconnect_attempt = 0 }))

  -- The callback of `reconnectTimer`.
  unfoldable pub reconnect_timer_fired : Connection C R → Connection C R
  unfolding connect
  reconnect_timer_fired c = elim c.reconnect_timer [
    | none ↦ c
    | some delay ↦ connect (record c { reconnect_timer = none })
  ]

  -- `disconnect`
  unfoldable pub disconnect : Connection C R → Connection C R
  unfolding effect set_status stop_liveness reject_schema_sync Pending.reject_all new_error
  disconnect c =
      let marked = stop_liveness (record c { intentional_disconnect = true }) in
      let cleared = record marked { reconnect_timer = none } in
      let closed =
        if cleared.socket
        then record (effect close_socket cleared) { socket = false }
        else cleared in
      let error = network_error (text "Disconnected") false in
      let rejected = reject_schema_sync (zync error) closed in
      let settled = record rejected {
        pending = Pending.reject_all (zync error) rejected.pending;
      } in
      effect
        (disconnected_event (record {
          code = client_disconnect;
          reason = error.message;
          category = error.category;
          retryable = false;
          attempt = settled.reconnect_attempt;
        }))
        (set_status disconnected none none none settled)

module _ {C R : Type 0} (o : ConnectionOptions) where
  -- `willRetryAfter`
  unfoldable pub will_retry_after : ZyncBaseError → Connection C R → Bool
  will_retry_after err c =
      not c.intentional_disconnect
      && err.retryable
      && or_else o.reconnect true
      && below_max o c.reconnect_attempt

  -- `disconnectDetail`
  unfoldable pub disconnect_detail : ZyncBaseError → Bool → Connection C R → DisconnectDetail
  disconnect_detail err will_retry c = record {
    code =
        if err.retryable && or_else o.reconnect true && not (below_max o c.reconnect_attempt)
        then retries_exhausted
        else err.code;
    reason = err.message;
    category = err.category;
    retryable = will_retry;
    attempt = c.reconnect_attempt;
  }

  -- `shouldReconnectAfterHandshake`
  unfoldable pub should_reconnect_after_handshake : Thrown → Connection C R → Bool
  should_reconnect_after_handshake err c =
      not c.intentional_disconnect && or_else o.reconnect true && retryable_or_true err

module _ {C R : Type 0} (o : ConnectionOptions) (scale : ℕ) where
  -- `scheduleReconnect`; a new timer takes the place of an old one.
  unfoldable pub schedule_reconnect : ℕ → Option Thrown → Connection C R → Connection C R
  unfolding effect set_status compute_backoff_delay
  schedule_reconnect r error c =
      if below_max o c.reconnect_attempt
      then (let delay = compute_backoff_delay o scale r c.reconnect_attempt in
          let attempt = c.reconnect_attempt + 1 in
          let counted = record c { reconnect_attempt = attempt; reconnect_timer = none } in
          let told = set_status reconnecting (some attempt) (some delay) error counted in
          record (effect (reconnecting_event attempt delay) told) { reconnect_timer = some delay })
      else effect (disconnected_event (exhausted error c.reconnect_attempt))
          (set_status disconnected none none error c)

  -- `handleSocketClose` once it is known which error counts.
  unfoldable pub close_with : ℕ → ZyncBaseError → Connection C R → Connection C R
  unfolding effect set_status reject_schema_sync Pending.reject_all will_retry_after
      disconnect_detail schedule_reconnect
  close_with r error c =
      let rejected = reject_schema_sync (zync error) c in
      let settled = record rejected {
        pending = Pending.reject_all (zync error) rejected.pending;
      } in
      let will_retry = will_retry_after o error settled in
      let told =
        if is_connected settled || not will_retry
        then (let shown = set_status disconnected none none (some (zync error)) settled in
            effect (disconnected_event (disconnect_detail o error will_retry shown)) shown)
        else settled in
      if will_retry
      then schedule_reconnect r (some (zync error)) told
      else effect (error_event (zync error)) told

  -- `handleSocketClose`
  unfoldable pub handle_socket_close : ℕ → Text → ℕ → Connection C R → Connection C R
  unfolding stop_liveness socket_close_error close_reason close_with
  handle_socket_close code reason r c =
      let error = close_reason c.pending_disconnect_error (socket_close_error code reason) in
      close_with r error (record (stop_liveness c) { pending_disconnect_error = none })

  -- `handleHandshakeFailure`, less the promise of `connect`, which it rejects.
  unfoldable pub handle_handshake_failure : ℕ → Thrown → Connection C R → Connection C R
  unfolding effect set_status stop_liveness teardown_socket reject_schema_sync Pending.reject_all
      should_reconnect_after_handshake schedule_reconnect
  handle_handshake_failure r err c =
      let closed = teardown_socket (stop_liveness c) in
      let rejected =
        reject_schema_sync err
          (record closed { pending = Pending.reject_all err closed.pending }) in
      let told = effect (error_event err) (set_status disconnected none none (some err) rejected) in
      if not (is_some told.reconnect_timer) && should_reconnect_after_handshake o err told
      then schedule_reconnect r (some err) told
      else told

  -- `handleTicketError`
  unfoldable pub handle_ticket_error : ℕ → Thrown → Connection C R → Connection C R
  unfolding effect set_status reject_schema_sync to_connection_error schedule_reconnect
  handle_ticket_error r err c =
      let error = to_connection_error err (text "Ticket acquisition failed") in
      let told = effect (error_event (zync error)) (
        set_status disconnected none none (some (zync error))
          (reject_schema_sync (zync error) c)) in
      if not told.intentional_disconnect && or_else o.reconnect true && error.retryable
      then schedule_reconnect r none told
      else told
