-- ===== src/Connection/Steps.antt =====
-- Everything that happens to a `ConnectionManager`, one input after the other: calls of the
-- application, callbacks of the socket and of the timers, messages of the server.
use zyncbase.Connection.{Connection, ConnectionOptions}
use zyncbase.Connection.Liveness.{PingResult, start_liveness, liveness_timer_fired}
use zyncbase.Connection.Reconnecting.{
  connect, open_socket, handshake_done, reconnect_timer_fired, disconnect, handle_ticket_error,
  handle_handshake_failure, handle_socket_error, handle_socket_close,
}
use zyncbase.Connection.Requests.{Inbound, send_request, refresh_finished, dispatch_inbound}
use zyncbase.Errors.{Thrown}
use zyncbase.Prelude.Result.{Result}
use zyncbase.Prelude.{ℕ, Bool, List, [], ◌∷◌}
use zyncbase.Prelude.Text.{Text}

-- A number `r` is the random number r / scale that the handler draws.
pub data Input (C R : Type 0) : Type 0 where
  connect_called disconnect_called : Input C R
  ticket_acquired : Input C R
  ticket_failed : (r : ℕ) → Thrown → Input C R
  socket_opened : (r : ℕ) → Input C R
  namespaces_set : Input C R
  handshake_failed : (r : ℕ) → Thrown → Input C R
  socket_error : Input C R
  socket_closed : (code : ℕ) → (reason : Text) → (r : ℕ) → Input C R
  reconnect_timeout : Input C R
  liveness_timeout : (is_open : Bool) → PingResult → Input C R
  request : (is_setup is_open : Bool) → Result Thrown C → Input C R
  message : Inbound C R → Input C R
  refresh_ended : (success : Bool) → Input C R

module _ {C R : Type 0} (o : ConnectionOptions) (scale : ℕ) where
  unfoldable pub step : Input C R → Connection C R → Connection C R
  unfolding connect disconnect open_socket handle_ticket_error start_liveness handshake_done
      handle_handshake_failure handle_socket_error handle_socket_close reconnect_timer_fired
      liveness_timer_fired send_request dispatch_inbound refresh_finished
  step connect_called c = connect c
  step disconnect_called c = disconnect c
  step ticket_acquired c = open_socket c
  step (ticket_failed r t) c = handle_ticket_error o scale r t c
  step (socket_opened r) c = start_liveness o scale r c
  step namespaces_set c = handshake_done c
  step (handshake_failed r t) c = handle_handshake_failure o scale r t c
  step socket_error c = handle_socket_error c
  step (socket_closed code reason r) c = handle_socket_close o scale code reason r c
  step reconnect_timeout c = reconnect_timer_fired c
  step (liveness_timeout is_open result) c = liveness_timer_fired o scale is_open result c
  step (request is_setup is_open encoded) c = send_request is_setup is_open encoded c
  step (message m) c = dispatch_inbound o scale m c
  step (refresh_ended success) c = refresh_finished success c

  unfoldable pub run : List (Input C R) → Connection C R → Connection C R
  unfolding step
  run [] c = c
  run (i ∷ is) c = run is (step i c)
