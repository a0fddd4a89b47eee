-- ===== src/Connection/Invariant.antt =====
-- What holds of a connection at any time.
use zyncbase.Connection.{
  Connection, ConnectionOptions, ping_timeout, effect, set_status, reject_schema_sync,
}
use zyncbase.Connection.Liveness.{
  stop_liveness, schedule, schedule_liveness_probe, ping, PingResult, send_liveness_ping,
  liveness_timer_fired, note_correlated_response,
}
use zyncbase.Connection.Reconnecting.{
  schedule_reconnect, close_with, teardown_socket, handle_handshake_failure, handle_ticket_error,
  connect, disconnect, will_retry_after, should_reconnect_after_handshake,
}
use zyncbase.Errors.{ZyncBaseError, Thrown}
use zyncbase.Prelude.{ℕ, ◌≤◌, ◌≡◌, refl, true, false, Option, none, some, arith, Bool}

module _ {C R : Type 0} (o : ConnectionOptions) where
  -- The attempts stay within the bound; a client that was disconnected on purpose waits for no timer;
  -- and a ping that waits for its answer is the one that `livenessPingId` names.
  pub record IsSane (c : Connection C R) : Type 0 where
    pub attempts : (most : ℕ) → o.max_reconnect_attempts ≡ some most → c.reconnect_attempt ≤ most
    pub no_reconnect : c.intentional_disconnect ≡ true → c.reconnect_timer ≡ none
    pub no_probe : c.intentional_disconnect ≡ true → c.liveness_timer ≡ none
    pub pinged : (id : ℕ) → c.liveness_timer ≡ some (ping_timeout id) → c.liveness_ping_id ≡ some id

  pub connect-IsSane : (c : Connection C R) → IsSane c → IsSane (connect c)
  unfolding connect set_status effect stop_liveness
  connect-IsSane c s = record {
    attempts = s.attempts;
    no_reconnect = λ h. cc;
    no_probe = λ h. refl;
    pinged = λ id h. cc;
  }

  pub disconnect-IsSane : (c : Connection C R) → IsSane c → IsSane (disconnect c)
  unfolding disconnect set_status effect stop_liveness reject_schema_sync
  disconnect-IsSane c s = record {
    attempts = λ most h. ground (arith, s.attempts most h);
    no_reconnect = λ h. ground arith;
    no_probe = λ h. ground arith;
    pinged = λ id h. ground arith;
  }

module _ {C R : Type 0} (o : ConnectionOptions) (scale : ℕ) where
  pub schedule_reconnect-IsSane :
      (r : ℕ) (t : Option Thrown) (c : Connection C R)
      → c.intentional_disconnect ≡ false
      → IsSane o c
      → IsSane o (schedule_reconnect o scale r t c)
  unfolding schedule_reconnect set_status effect
  schedule_reconnect-IsSane r t c going s = record {
    attempts = λ most h. ground (arith, s.attempts most h);
    no_reconnect = λ h. ground arith;
    no_probe = λ h. ground arith;
    pinged = λ id h. ground (arith, s.pinged id);
  }

  pub close_with-IsSane :
      (r : ℕ) (e : ZyncBaseError) (c : Connection C R)
      → IsSane o c
      → IsSane o (close_with o scale r e c)
  unfolding close_with schedule_reconnect set_status effect reject_schema_sync will_retry_after
  close_with-IsSane r e c s = record {
    attempts = λ most h. ground (arith, s.attempts most h);
    no_reconnect = λ h. ground (arith, s.no_reconnect);
    no_probe = λ h. ground (arith, s.no_probe);
    pinged = λ id h. ground (arith, s.pinged id);
  }

  pub handle_ticket_error-IsSane :
      (r : ℕ) (t : Thrown) (c : Connection C R)
      → IsSane o c
      → IsSane o (handle_ticket_error o scale r t c)
  unfolding handle_ticket_error schedule_reconnect set_status effect reject_schema_sync
  handle_ticket_error-IsSane r t c s = record {
    attempts = λ most h. ground (arith, s.attempts most h);
    no_reconnect = λ h. ground (arith, s.no_reconnect);
    no_probe = λ h. ground (arith, s.no_probe);
    pinged = λ id h. ground (arith, s.pinged id);
  }

  pub handle_handshake_failure-IsSane :
      (r : ℕ) (t : Thrown) (c : Connection C R)
      → IsSane o c
      → IsSane o (handle_handshake_failure o scale r t c)
  unfolding handle_handshake_failure schedule_reconnect set_status effect reject_schema_sync
      teardown_socket stop_liveness should_reconnect_after_handshake
  handle_handshake_failure-IsSane r t c s = record {
    attempts = λ most h. ground (arith, s.attempts most h);
    no_reconnect = λ h. ground (arith, s.no_reconnect);
    no_probe = λ h. ground arith;
    pinged = λ id h. ground arith;
  }

  pub schedule_liveness_probe-IsSane :
      (delay : ℕ) (c : Connection C R)
      → IsSane o c
      → IsSane o (schedule_liveness_probe o scale delay c)
  unfolding schedule_liveness_probe schedule
  schedule_liveness_probe-IsSane delay c s = record {
    attempts = λ most h. ground (arith, s.attempts most h);
    no_reconnect = λ h. ground (arith, s.no_reconnect);
    no_probe = λ h. ground (arith, s.no_probe);
    pinged = λ id h. ground (arith, s.pinged id);
  }

  send_liveness_ping-IsSane :
      (is_open : Bool) (result : PingResult) (c : Connection C R)
      → c.liveness_timer ≡ none
      → IsSane o c
      → IsSane o (send_liveness_ping o scale is_open result c)
  unfolding send_liveness_ping ping effect
  send_liveness_ping-IsSane is_open result c idle s = record {
    attempts = λ most h. ground (arith, s.attempts most h);
    no_reconnect = λ h. ground (arith, s.no_reconnect);
    no_probe = λ h. ground (arith, s.no_probe);
    pinged = λ id h. ground arith;
  }

  pub liveness_timer_fired-IsSane :
      (is_open : Bool) (result : PingResult) (c : Connection C R)
      → IsSane o c
      → IsSane o (liveness_timer_fired o scale is_open result c)
  unfolding liveness_timer_fired schedule effect
  liveness_timer_fired-IsSane is_open result c s =
      let fired = record c { liveness_timer = none } in
      let idle : IsSane o fired = record {
        attempts = s.attempts;
        no_reconnect = s.no_reconnect;
        no_probe = λ h. refl;
        pinged = λ id h. cc;
      } in
      let pinging = send_liveness_ping-IsSane is_open result fired refl idle in
      record {
        attempts = λ most h. ground (arith, s.attempts most h, pinging.attempts most h);
        no_reconnect = λ h. ground (arith, s.no_reconnect, pinging.no_reconnect);
        no_probe = λ h. ground (arith, s.no_probe, pinging.no_probe);
        pinged = λ id h. ground (arith, s.pinged id, pinging.pinged id);
      }

  pub note_correlated_response-IsSane :
      (id : ℕ) (c : Connection C R) → IsSane o c → IsSane o (note_correlated_response o scale id c)
  unfolding note_correlated_response schedule_liveness_probe schedule
  note_correlated_response-IsSane id c s = record {
    attempts = λ most h. ground (arith, s.attempts most h);
    no_reconnect = λ h. ground (arith, s.no_reconnect);
    no_probe = λ h. ground (arith, s.no_probe);
    pinged = λ id h. ground (arith, s.pinged id);
  }
