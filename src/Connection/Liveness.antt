-- ===== src/Connection/Liveness.antt =====
-- The liveness checks: a probe some time after the last response, and a ping that has to be answered.
-- Times are exact multiples of 1 / scale of a millisecond.
use zyncbase.Pending
use zyncbase.Prelude.Int.{ℤ, pos, negsuc}
use zyncbase.Prelude.Result.{Result, ok, err, ◌>>=◌}
use zyncbase.Retry.{or_else}
use zyncbase.Connection.{
  Connection, ConnectionOptions, probe, ping_timeout, effect, error_event, close_socket,
  send_message,
}
use zyncbase.Errors.{Thrown}
use zyncbase.Prelude.{
  ℕ, ◌-◌, ◌*◌, Bool, true, false, not, ◌&&◌, ◌||◌, Option, none, some, ltb, leb, ◌==◌,
  if◌then◌else◌, is_some, min,
}
use zyncbase.Prelude.Text.{Text, text}

abbrev pub max_timer_delay : ℕ
max_timer_delay = 2147483647

-- The options of `liveness`.
pub record LivenessOptions : Type 0 where
  pub enabled : Option Bool
  pub interval : Option ℤ
  pub timeout : Option ℤ

abbrev pub max_safe_integer : ℕ
max_safe_integer = 9007199254740991

-- An option that has to be an integer between two bounds.
unfoldable pub integer_between : (low high fallback : ℕ) → Text → Option ℤ → Result Text ℕ
integer_between low high fallback message none = ok fallback
integer_between low high fallback message (some (negsuc n)) = err message
integer_between low high fallback message (some (pos n)) =
    if leb low n && leb n high then ok n else err message

-- `resolveLivenessOptions` for integers; a value that is no Boolean or no number is left out.
unfoldable pub resolve_liveness_options : LivenessOptions → Result Text (Bool × ℕ × ℕ)
unfolding integer_between
resolve_liveness_options o = do
  interval ←
      integer_between 1000 max_safe_integer 15000
        (text "liveness.intervalMs must be an integer of at least 1000") o.interval
  timeout ←
      integer_between 1 max_timer_delay 10000
        (text "liveness.timeoutMs must be an integer from 1 to 2147483647") o.timeout
  ok (or_else o.enabled true, interval, timeout)

-- How `encode` and `send` end for a ping.
pub data PingResult : Type 0 where
  not_encoded : Thrown → PingResult
  not_sent sent : PingResult

module _ {C R : Type 0} where
  -- `this.livenessPingId === id`
  abbrev pub is_ping : ℕ → Connection C R → Bool
  is_ping id c = elim c.liveness_ping_id [ none ↦ false | some ping_id ↦ ping_id == id ]

  -- `stopLiveness`
  unfoldable pub stop_liveness : Connection C R → Connection C R
  stop_liveness c = record c { liveness_timer = none; liveness_ping_id = none }

  -- What `sendLivenessPing` does with its id.
  unfoldable pub ping : PingResult → ℕ → Connection C R → Connection C R
  unfolding effect
  ping (not_encoded thrown) id c = effect close_socket (effect (error_event thrown) c)
  ping not_sent id c = effect close_socket (record c { liveness_ping_id = some id })
  ping sent id c = record (effect (send_message id) c) {
    liveness_ping_id = some id;
    liveness_timer = some (ping_timeout id);
  }

module _ {C R : Type 0} (o : ConnectionOptions) (scale : ℕ) where
  -- The inner `schedule`.
  unfoldable pub schedule : ℕ → Connection C R → Connection C R
  schedule remaining c =
      let wait = min remaining (max_timer_delay * scale) in
      record c { liveness_timer = some (probe wait (remaining - wait)) }

  -- `scheduleLivenessProbe`
  unfoldable pub schedule_liveness_probe : ℕ → Connection C R → Connection C R
  unfolding schedule
  schedule_liveness_probe delay c =
      if o.liveness_enabled && c.socket && not c.intentional_disconnect then schedule delay c else c

  -- `startLiveness`, for the random number r / scale.
  unfoldable pub start_liveness : ℕ → Connection C R → Connection C R
  unfolding stop_liveness schedule_liveness_probe
  start_liveness r c =
      let stopped = stop_liveness c in
      if o.liveness_enabled
      then schedule_liveness_probe (r * o.liveness_interval) stopped
      else stopped

  -- `sendLivenessPing`; `is_open` is the state of the socket.
  unfoldable pub send_liveness_ping : Bool → PingResult → Connection C R → Connection C R
  unfolding effect Pending.next_id
  send_liveness_ping is_open result c =
      if c.socket && is_open && not c.intentional_disconnect
      then ping result (Pending.next_id c.pending).1
          (record c { pending = (Pending.next_id c.pending).0 })
      else c

  -- The callback of the timer, which is `null` from then on.
  unfoldable pub liveness_timer_fired : Bool → PingResult → Connection C R → Connection C R
  unfolding effect schedule send_liveness_ping
  liveness_timer_fired is_open result c =
      let fired = record c { liveness_timer = none } in
      elim c.liveness_timer [
        | none ↦ c
        | some (probe wait rest) ↦
            if ltb 0 rest then schedule rest fired else send_liveness_ping is_open result fired
        | some (ping_timeout id) ↦
            if is_ping id c
            then effect close_socket (record fired { liveness_ping_id = none })
            else fired
      ]

  -- `noteCorrelatedResponse`, whose result no caller reads.
  unfoldable pub note_correlated_response : ℕ → Connection C R → Connection C R
  unfolding schedule_liveness_probe Pending.context
  note_correlated_response id c =
      if (is_ping id c || is_some (Pending.context id c.pending)) && o.liveness_enabled
      then schedule_liveness_probe (o.liveness_interval * scale)
          (record c { liveness_timer = none; liveness_ping_id = none })
      else c
