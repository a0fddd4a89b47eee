-- ===== src/Tests/Requests.antt =====
-- Runs of the request code (retry_policy.ts, pending_requests.ts, errors.ts, actions.ts of
-- sdk/typescript/src), and its theorems at concrete inputs.
use zyncbase.Pending
use zyncbase.Pending.{issued, taken, Pending, Call, sent, answered, failed, closed, call, run, new}
use zyncbase.Prelude.{
  ℕ, ◌+◌, ◌*◌, ◌≤◌, ◌≡◌, refl, false, none, some, List, [], ◌∷◌, arith, ltb, if◌then◌else◌, min,
}
use zyncbase.Errors.{ZyncBaseError, ServerPayload, zync, internal_error, from_server_response}
use zyncbase.Actions.{map_action_error}
use zyncbase.Actions.Laws.{map_action_error-not-retryable}
use zyncbase.Retry.{BackoffOptions, RetryOptions, pre_cap, or_else, backoff_delay, should_retry}
use zyncbase.Retry.Laws.{backoff_delay_bounds}
use zyncbase.Retry.Loop.{
  Reply, response, failure, Outcome, resolved, dispatch_with_retry, Explains,
  dispatch_with_retry_total,
}
use zyncbase.Pending.Laws.{count, run_once, run_closed}
use zyncbase.Prelude.Text.{text}

abbrev down : ServerPayload
down = record {
  code = internal_error;
  message = text "down";
  retry_after = none;
  request_id = some 4;
  path = none;
  details = none;
}

abbrev failing : ZyncBaseError
failing = from_server_response down

map_action_error-not-retryable_example :
    (map_action_error (zync (from_server_response down))).retryable ≡ false
unfolding map_action_error from_server_response
map_action_error-not-retryable_example = map_action_error-not-retryable down refl

abbrev defaults : BackoffOptions
defaults = record { base = none; max = none; jitter = none }

abbrev steady : BackoffOptions
steady = record defaults { jitter = some false }

backoff_tests :
    (backoff_delay 10 0 0 defaults ≡ 90000)
    × (backoff_delay 10 5 2 defaults ≡ 400000)
    × (backoff_delay 10 9 40 defaults ≡ 3000000)
unfolding backoff_delay
backoff_tests = (refl, refl, refl)

backoff_delay_bounds_example :
    (min (pre_cap 2 defaults * (9 * 10)) (or_else defaults.max 30000 * (10 * 10))
      ≤ backoff_delay 10 7 2 defaults)
    × (backoff_delay 10 7 2 defaults
        ≤ min (pre_cap 2 defaults * (11 * 10)) (or_else defaults.max 30000 * (10 * 10)))
backoff_delay_bounds_example = backoff_delay_bounds 10 7 2 defaults (omega arith)

abbrev options : RetryOptions
options = record {
  retry_rate_limits = some false;
  retry_server_errors = none;
  max_server_retries = some 2;
  reconnect_delay = none;
  max_reconnect_delay = none;
  reconnect_jitter = none;
}

-- Two server errors, then a response.
abbrev replies : ℕ → Reply ℕ
replies n = if ltb n 2 then failure (zync failing) false false else response n

retry_test : dispatch_with_retry options replies 5 0 ≡ some (resolved 2, 3)
unfolding dispatch_with_retry should_retry from_server_response
retry_test = refl

dispatch_with_retry_total_example :
    (out : Outcome ℕ) × (sends : ℕ) × (dispatch_with_retry options replies 5 0 ≡ some (out, sends))
    × (sends ≤ 2 + 1)
    × Explains options replies 0 out sends
dispatch_with_retry_total_example = dispatch_with_retry_total options replies 5 refl (omega arith)

abbrev calls : List (Call ℕ ℕ ℕ)
calls = sent 10 ∷ sent 20 ∷ answered 1 7 ∷ answered 1 8 ∷ taken ∷ sent 30 ∷ failed 9 0 ∷ []

run_once_example :
    (count 1 (run calls new).entries + count 1 (run calls new).log ≡ issued 1 calls 1)
    × (issued 1 calls 1 ≤ 1)
run_once_example = run_once calls 1

run_closed_example :
    (Pending.size (call (closed 5) (run calls new)) ≡ 0)
    × (count 2 (call (closed 5) (run calls new)).log ≡ issued 2 calls 1)
run_closed_example = run_closed calls 5 2
