-- ===== src/Retry.antt =====
-- sdk/typescript/src/retry_policy.ts, and the retry loop of `ConnectionManager.dispatchWithRetry`
-- (sdk/typescript/src/connection.ts). Delays are exact rationals: `Math.random()` is `r / scale`
-- with `r < scale`, and a delay is given by its numerator over `10 * scale`.
pub mod Laws
pub mod Loop
use zyncbase.Errors
use zyncbase.Prelude.{
  ℕ, ◌+◌, ◌-◌, ◌*◌, ◌^◌, min, Bool, true, false, ◌&&◌, Option, none, some, ltb, if◌then◌else◌,
}
use zyncbase.Errors.{ErrorCode, Thrown, zync, rate_limited, internal_error, engine_unhealthy}

-- `value ?? fallback`
abbrev pub or_else {ℓ} : {A : Type ℓ} → Option A → A → A
or_else none d = d
or_else (some a) d = a

pub record BackoffOptions : Type 0 where
  pub base : Option ℕ
  pub max : Option ℕ
  pub jitter : Option Bool

abbrev pub pre_cap : ℕ → BackoffOptions → ℕ
pre_cap attempt opts = or_else opts.base 1000 * 2 ^ min attempt 30

-- `backoffDelay`, over the denominator `10 * scale`; the jitter is
-- preCap * 0.1 * (2 * r / scale - 1).
unfoldable pub backoff_delay : (scale r : ℕ) → ℕ → BackoffOptions → ℕ
backoff_delay scale r attempt opts =
    let cap = or_else opts.max 30000 in
    let full = pre_cap attempt opts in
    min
      (if or_else opts.jitter true
        then full * (10 * scale) + full * (2 * r) - full * scale
        else full * (10 * scale))
      (cap * (10 * scale))

-- The options of the client that the retry code reads.
pub record RetryOptions : Type 0 where
  pub retry_rate_limits : Option Bool
  pub retry_server_errors : Option Bool
  pub max_server_retries : Option ℕ
  pub reconnect_delay : Option ℕ
  pub max_reconnect_delay : Option ℕ
  pub reconnect_jitter : Option Bool

-- `shouldRetry` for a `ZyncBaseError` of the given code.
abbrev pub retry_code : RetryOptions → ErrorCode → ℕ → Bool
retry_code o rate_limited attempt = or_else o.retry_rate_limits true
retry_code o internal_error attempt =
    or_else o.retry_server_errors true && ltb attempt (or_else o.max_server_retries 3)
retry_code o engine_unhealthy attempt =
    or_else o.retry_server_errors true && ltb attempt (or_else o.max_server_retries 3)
retry_code o _ attempt = false

unfoldable pub should_retry : RetryOptions → Thrown → ℕ → Bool
should_retry o (zync e) attempt = retry_code o e.code attempt
should_retry o _ attempt = false

abbrev pub backoff_options : RetryOptions → BackoffOptions
backoff_options o = record {
  base = o.reconnect_delay;
  max = o.max_reconnect_delay;
  jitter = o.reconnect_jitter;
}

-- `err.retryAfter`, where `err` is a `ZyncBaseError` that has one.
abbrev pub retry_after_of : Thrown → Option ℕ
retry_after_of (zync e) = e.retry_after
retry_after_of _ = none

-- `getDelay`, over the same denominator.
unfoldable pub get_delay : (scale r : ℕ) → RetryOptions → Thrown → ℕ → ℕ
unfolding backoff_delay
get_delay scale r o err attempt = elim (retry_after_of err) [
  | none ↦ backoff_delay scale r attempt (backoff_options o)
  | some ms ↦ ms * (10 * scale)
]
