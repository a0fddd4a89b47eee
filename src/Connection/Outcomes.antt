-- ===== src/Connection/Outcomes.antt =====
-- What the end of a socket leaves behind.
use zyncbase.Connection.{
  Connection, ConnectionOptions, reconnecting, disconnected, waiting, effect, set_status,
  reject_schema_sync, new_connection,
}
use zyncbase.Connection.Closing.{close_reason, socket_close_error}
use zyncbase.Connection.Invariant.{IsSane}
use zyncbase.Connection.Safety.{run-IsSane, new_connection-IsSane}
use zyncbase.Connection.Liveness.{stop_liveness}
use zyncbase.Connection.Reconnecting.{
  schedule_reconnect, close_with, will_retry_after, handle_socket_close, compute_backoff_delay,
}
use zyncbase.Connection.Steps.{Input, run}
use zyncbase.Errors.{ZyncBaseError}
use zyncbase.Retry.{or_else}
use zyncbase.Prelude.{
  ℕ, ◌+◌, ◌≡◌, ◌≢◌, ◌⊎◌, true, false, none, some, [], inl, inr, arith, Bool-cases, refl, ◌≤◌, List,
  ◌<◌, Bool, Option, ltb,
}
use zyncbase.Prelude.Text.{Text}

reconnect_on : (x : Option Bool) → or_else x true ≡ true → (x ≡ none) ⊎ (x ≡ some true)
reconnect_on none h = inl refl
reconnect_on (some true) h = inr refl
reconnect_on (some false) h = cc

reconnect_off : (x : Option Bool) → or_else x true ≡ false → x ≡ some false
reconnect_off none h = cc
reconnect_off (some true) h = cc
reconnect_off (some false) h = refl

attempts_left :
    (x : Option ℕ) (n : ℕ)
    → elim x [ none ↦ true | some most ↦ ltb n most ] ≡ true
    → (x ≡ none) ⊎ ((most : ℕ) × (x ≡ some most) × (n < most))
attempts_left none n h = inl refl
attempts_left (some most) n h = inr (most, refl, ground arith)

none_left :
    (x : Option ℕ) (n : ℕ)
    → elim x [ none ↦ true | some most ↦ ltb n most ] ≡ false
    → (most : ℕ) × (x ≡ some most) × (most ≤ n)
none_left none n h = cc
none_left (some most) n h = (most, refl, ground arith)

module _ {C R : Type 0} (o : ConnectionOptions) (scale : ℕ) where
  -- What a connection has given up when its socket has closed.
  abbrev pub IsCutOff : Connection C R → Type 0
  IsCutOff d =
      (d.pending.entries ≡ [])
      × (d.schema_sync ≢ waiting)
      × (d.liveness_timer ≡ none)
      × (d.liveness_ping_id ≡ none)

  -- It waits for the next attempt.
  abbrev pub WillTry : ℕ → Connection C R → Connection C R → Type 0
  WillTry r c d =
      (d.current_status ≡ reconnecting)
      × (d.reconnect_timer ≡ some (compute_backoff_delay o scale r c.reconnect_attempt))
      × (d.reconnect_attempt ≡ c.reconnect_attempt + 1)

  -- It stays disconnected.
  abbrev pub HasStopped : Connection C R → Connection C R → Type 0
  HasStopped c d =
      (d.current_status ≡ disconnected)
      × (d.reconnect_timer ≡ c.reconnect_timer)
      × (d.reconnect_attempt ≡ c.reconnect_attempt)

  -- Another attempt is due: the client did not disconnect on purpose, the error may be retried,
  -- reconnecting is not switched off, and there is no limit or it is not reached yet.
  abbrev pub MayRetry : ZyncBaseError → Connection C R → Type 0
  MayRetry e c =
      (c.intentional_disconnect ≡ false)
      × (e.retryable ≡ true)
      × ((o.reconnect ≡ none) ⊎ (o.reconnect ≡ some true))
      × ((o.max_reconnect_attempts ≡ none)
          ⊎ ((most : ℕ) × (o.max_reconnect_attempts ≡ some most) × (c.reconnect_attempt < most)))

  -- One of these is not so.
  abbrev pub MustStop : ZyncBaseError → Connection C R → Type 0
  MustStop e c =
      (c.intentional_disconnect ≡ true)
      ⊎ ((e.retryable ≡ false)
          ⊎ ((o.reconnect ≡ some false)
              ⊎ ((most : ℕ) × (o.max_reconnect_attempts ≡ some most)
                  × (most ≤ c.reconnect_attempt))))

  may_retry :
      (e : ZyncBaseError) (c : Connection C R) → will_retry_after o e c ≡ true → MayRetry e c
  unfolding will_retry_after
  may_retry e c h = (
    ground arith,
    ground arith,
    reconnect_on o.reconnect (ground arith),
    attempts_left o.max_reconnect_attempts c.reconnect_attempt (ground arith),
  )

  must_stop :
      (e : ZyncBaseError) (c : Connection C R) → will_retry_after o e c ≡ false → MustStop e c
  unfolding will_retry_after
  must_stop e c h = elim (Bool-cases c.intentional_disconnect) [
    | inl meant ↦ inl meant
    | inr going ↦ elim (Bool-cases e.retryable) [
      | inr final ↦ inr (inl final)
      | inl again ↦ elim (Bool-cases (or_else o.reconnect true)) [
        | inr off ↦ inr (inr (inl (reconnect_off o.reconnect off)))
        | inl on ↦
            inr (inr (inr (none_left o.max_reconnect_attempts c.reconnect_attempt (ground arith))))
      ]
    ]
  ]

  close_with-IsCutOff :
      (r : ℕ) (e : ZyncBaseError) (c : Connection C R)
      → c.liveness_timer ≡ none
      → c.liveness_ping_id ≡ none
      → IsCutOff (close_with o scale r e c)
  unfolding close_with schedule_reconnect set_status effect reject_schema_sync
  close_with-IsCutOff r e c timer ping =
      (ground arith, (λ h. ground arith), ground arith, ground arith)

  close_with-outcome :
      (r : ℕ) (e : ZyncBaseError) (c : Connection C R)
      → (MayRetry e c × WillTry r c (close_with o scale r e c))
        ⊎ (MustStop e c × HasStopped c (close_with o scale r e c))
  unfolding close_with schedule_reconnect set_status effect reject_schema_sync will_retry_after
  close_with-outcome r e c = elim (Bool-cases (will_retry_after o e c)) [
    | inl again ↦ inl (may_retry e c again, (ground arith, ground arith, ground arith))
    | inr stop ↦ inr (must_stop e c stop, (ground arith, ground arith, ground arith))
  ]

  -- The error that counts when the socket closes.
  abbrev pub cause : ℕ → Text → Connection C R → ZyncBaseError
  cause code reason c = close_reason c.pending_disconnect_error (socket_close_error code reason)

  -- When a socket closes, no request stays pending, nobody waits for the schema any more and the
  -- liveness checks are off. If the error that counts is retryable, reconnecting is switched on, the
  -- client did not disconnect on purpose and attempts are left, the next attempt is planned after the
  -- delay of the attempts so far; otherwise the status is disconnected and nothing new is planned.
  pub handle_socket_close-outcome :
      (code : ℕ) (reason : Text) (r : ℕ) (c : Connection C R)
      → IsCutOff (handle_socket_close o scale code reason r c)
        × ((MayRetry (cause code reason c) c
              × WillTry r c (handle_socket_close o scale code reason r c))
            ⊎ (MustStop (cause code reason c) c
                × HasStopped c (handle_socket_close o scale code reason r c)))
  unfolding handle_socket_close stop_liveness
  handle_socket_close-outcome code reason r c =
      let quiet = record (stop_liveness c) { pending_disconnect_error = none } in
      (
        close_with-IsCutOff r (cause code reason c) quiet refl refl,
        close_with-outcome r (cause code reason c) quiet,
      )

-- Whatever happens to a new ConnectionManager, the attempts stay within maxReconnectAttempts, a client
-- that was disconnected on purpose waits for no timer, and a ping that waits for its answer is the one
-- that livenessPingId names.
pub run_new-IsSane :
    {C R : Type 0} (o : ConnectionOptions) (scale : ℕ) (is : List (Input C R))
    → IsSane o (run o scale is new_connection)
run_new-IsSane o scale is = run-IsSane o scale is new_connection (new_connection-IsSane o scale)
