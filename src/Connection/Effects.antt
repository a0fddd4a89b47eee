-- ===== src/Connection/Effects.antt =====
-- What each handler does with the pending requests.
use zyncbase.Pending
use zyncbase.Connection.{Connection, ConnectionOptions, effect, set_status, reject_schema_sync}
use zyncbase.Connection.Closing.{close_reason, socket_close_error}
use zyncbase.Connection.Liveness.{
  stop_liveness, schedule, schedule_liveness_probe, note_correlated_response,
}
use zyncbase.Connection.Reconnecting.{
  schedule_reconnect, close_with, handle_socket_close, teardown_socket, handle_handshake_failure,
  handle_ticket_error, disconnect, network_error,
}
use zyncbase.Errors.{ZyncBaseError, Thrown, zync}
use zyncbase.Prelude.{ℕ, ◌≡◌, refl, Option, arith, false, none}
use zyncbase.Prelude.Text.{Text, text}

module _ {C R : Type 0} where
  pub set_status-pending :
      (st : zyncbase.Connection.Status) (n m : Option ℕ) (t : Option Thrown) (c : Connection C R)
      → (set_status st n m t c).pending ≡ c.pending
  unfolding set_status effect
  set_status-pending st n m t c = refl

  pub reject_schema_sync-pending :
      (t : Thrown) (c : Connection C R) → (reject_schema_sync t c).pending ≡ c.pending
  unfolding reject_schema_sync
  reject_schema_sync-pending t c = ground arith

  pub teardown_socket-pending : (c : Connection C R) → (teardown_socket c).pending ≡ c.pending
  unfolding teardown_socket effect
  teardown_socket-pending c = ground arith

module _ {C R : Type 0} (o : ConnectionOptions) (scale : ℕ) where
  pub schedule_reconnect-pending :
      (r : ℕ) (t : Option Thrown) (c : Connection C R)
      → (schedule_reconnect o scale r t c).pending ≡ c.pending
  unfolding schedule_reconnect effect set_status
  schedule_reconnect-pending r t c = ground arith

  pub close_with-pending :
      (r : ℕ) (e : ZyncBaseError) (c : Connection C R)
      → (close_with o scale r e c).pending ≡ Pending.reject_all (zync e) c.pending
  unfolding close_with effect set_status schedule_reconnect reject_schema_sync
  close_with-pending r e c = ground arith

  pub handle_socket_close-pending :
      (code : ℕ) (reason : Text) (r : ℕ) (c : Connection C R)
      → (handle_socket_close o scale code reason r c).pending
        ≡ Pending.reject_all
            (zync (close_reason c.pending_disconnect_error (socket_close_error code reason)))
            c.pending
  unfolding handle_socket_close stop_liveness
  handle_socket_close-pending code reason r c =
      close_with-pending r
        (close_reason c.pending_disconnect_error (socket_close_error code reason))
        (record (stop_liveness c) { pending_disconnect_error = none })

  pub handle_handshake_failure-pending :
      (r : ℕ) (t : Thrown) (c : Connection C R)
      → (handle_handshake_failure o scale r t c).pending ≡ Pending.reject_all t c.pending
  unfolding handle_handshake_failure effect set_status schedule_reconnect reject_schema_sync
      teardown_socket stop_liveness
  handle_handshake_failure-pending r t c = ground arith

  pub handle_ticket_error-pending :
      (r : ℕ) (t : Thrown) (c : Connection C R)
      → (handle_ticket_error o scale r t c).pending ≡ c.pending
  unfolding handle_ticket_error effect set_status schedule_reconnect reject_schema_sync
  handle_ticket_error-pending r t c = ground arith

  pub disconnect-pending :
      (c : Connection C R)
      → (disconnect c).pending
        ≡ Pending.reject_all (zync (network_error (text "Disconnected") false)) c.pending
  unfolding disconnect effect set_status reject_schema_sync stop_liveness
  disconnect-pending c = ground arith

  pub note_correlated_response-pending :
      (id : ℕ) (c : Connection C R) → (note_correlated_response o scale id c).pending ≡ c.pending
  unfolding note_correlated_response schedule_liveness_probe schedule
  note_correlated_response-pending id c = ground arith
