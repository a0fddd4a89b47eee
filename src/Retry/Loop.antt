-- ===== src/Retry/Loop.antt =====
-- `dispatchWithRetry` and `handleRetryOrThrow`: one send for each attempt, until a response, an
-- error that is not retried, or an intentional disconnect.
use zyncbase.Prelude.{
  ℕ, suc, zero, ◌+◌, Bool, Option, none, some, if◌then◌else◌, ◌<◌, ◌≡◌, refl, ◌⊎◌, inl, inr, true,
  false, Bool-cases, ◌-◌, ◌≤◌, arith, ◌∙◌,
}
use native.Mathlib.Decide.{dec_lt}
use zyncbase.Errors.{ErrorCode, rate_limited, zync, Thrown}
use zyncbase.Retry.{retry_code, or_else, RetryOptions, should_retry}

-- What one attempt meets: the response or the error, and whether `intentionalDisconnect` was set
-- when the error was caught, and when the delay had passed.
pub data Reply (R : Type 0) : Type 0 where
  response : R → Reply R
  failure : Thrown → (disconnected_at_catch disconnected_after_sleep : Bool) → Reply R

pub data Outcome (R : Type 0) : Type 0 where
  resolved : R → Outcome R
  rejected : Thrown → Outcome R

module _ {R : Type 0} (o : RetryOptions) (replies : ℕ → Reply R) where
  -- The outcome and the number of sends; `none` means that the fuel ran out.
  unfoldable pub dispatch_with_retry : (fuel attempt : ℕ) → Option (Outcome R × ℕ)
  dispatch_with_retry zero attempt = none
  dispatch_with_retry (suc fuel) attempt = elim (replies attempt) [
    | response r ↦ some (resolved r, attempt + 1)
    | failure err gone gone_later ↦
        let again = dispatch_with_retry fuel (attempt + 1) in
        if gone
        then some (rejected err, attempt + 1)
        else if should_retry o err attempt
        then if gone_later then some (rejected err, attempt + 1) else again
        else some (rejected err, attempt + 1)
  ]

module _ (o : RetryOptions) where
  retry_code-lt :
      (c : ErrorCode) (attempt : ℕ)
      → o.retry_rate_limits ≡ some false
      → retry_code o c attempt ≡ true
      → attempt < or_else o.max_server_retries 3
  retry_code-lt rate_limited attempt off h = ground arith
  retry_code-lt c attempt off h = ground arith

  should_retry-lt :
      (err : Thrown) (attempt : ℕ)
      → o.retry_rate_limits ≡ some false
      → should_retry o err attempt ≡ true
      → attempt < or_else o.max_server_retries 3
  unfolding should_retry
  should_retry-lt (zync e) attempt off h = retry_code-lt e.code attempt off h
  should_retry-lt _ attempt off h = cc

module _ {R : Type 0} (o : RetryOptions) where
  -- A reply after which the loop goes on.
  abbrev pub IsRetried : ℕ → Reply R → Type 0
  IsRetried attempt (response r) = ⊥
  IsRetried attempt (failure err gone gone_later) =
      (should_retry o err attempt ≡ true) × (gone ≡ false) × (gone_later ≡ false)

  -- A reply at which the loop ends with the given outcome.
  abbrev pub Ends : ℕ → Reply R → Outcome R → Type 0
  Ends attempt (response r) out = out ≡ resolved r
  Ends attempt (failure err gone gone_later) out =
      (out ≡ rejected err)
      × ((should_retry o err attempt ≡ false) ⊎ (gone ≡ true) ⊎ (gone_later ≡ true))

  abbrev Step : ℕ → Reply R → Type 0
  Step attempt r = IsRetried attempt r ⊎ ((out : Outcome R) × Ends attempt r out)

  Step-cases : (attempt : ℕ) (r : Reply R) → Step attempt r
  Step-cases attempt (response r) = inr (resolved r, refl)
  Step-cases attempt (failure err true later) = inr (rejected err, (refl, inr (inl refl)))
  Step-cases attempt (failure err false true) = inr (rejected err, (refl, inr (inr refl)))
  Step-cases attempt (failure err false false) = elim (Bool-cases (should_retry o err attempt)) [
    | inl again ↦ inl (again, refl, refl)
    | inr stop ↦ inr (rejected err, (refl, inl stop))
  ]

  IsRetried-lt :
      (attempt : ℕ) (r : Reply R)
      → o.retry_rate_limits ≡ some false
      → IsRetried attempt r
      → attempt < or_else o.max_server_retries 3
  IsRetried-lt attempt (response r) off h = elim h [ ]
  IsRetried-lt attempt (failure err gone later) off h = should_retry-lt o err attempt off h.0

  module _ (replies : ℕ → Reply R) where
    Ends-step :
        (fuel attempt : ℕ) (out : Outcome R)
        → Ends attempt (replies attempt) out
        → dispatch_with_retry o replies (suc fuel) attempt ≡ some (out, attempt + 1)
    unfolding dispatch_with_retry
    Ends-step fuel attempt out e = ground arith

    retried_step :
        (fuel attempt : ℕ)
        → IsRetried attempt (replies attempt)
        → dispatch_with_retry o replies (suc fuel) attempt
          ≡ dispatch_with_retry o replies fuel (attempt + 1)
    unfolding dispatch_with_retry
    retried_step fuel attempt e = ground arith

    -- What the loop's answer says of the replies it has seen: the outcome is that of the last
    -- attempt made, and every attempt before it was one to retry.
    pub record Explains (attempt : ℕ) (out : Outcome R) (sends : ℕ) : Type 0 where
      pub positive : attempt < sends
      pub last : Ends (sends - 1) (replies (sends - 1)) out
      pub earlier : (k : ℕ) → attempt ≤ k → k + 1 < sends → IsRetried k (replies k)

    Explains-later :
        {attempt : ℕ} {out : Outcome R} {sends : ℕ}
        → IsRetried attempt (replies attempt)
        → Explains (attempt + 1) out sends
        → Explains attempt out sends
    Explains-later {attempt} {sends} r x = record {
      positive = omega (arith, x.positive);
      last = x.last;
      earlier = λ k le lt. elim (dec_lt attempt k) [
        | yes p ↦ x.earlier k (omega arith) lt
        | no p ↦ (let e : attempt ≡ k = omega arith in rw e at r)
      ];
    }

    Explains-here :
        {attempt : ℕ} {out : Outcome R}
        → Ends attempt (replies attempt) out
        → Explains attempt out (attempt + 1)
    Explains-here {attempt} e = record {
      positive = omega arith;
      last = (let s : attempt + 1 - 1 ≡ attempt = omega arith in rw s e);
      earlier = λ k le lt. absurd (omega arith);
    }

    retry_total :
        (fuel attempt : ℕ)
        → o.retry_rate_limits ≡ some false
        → or_else o.max_server_retries 3 < fuel + attempt
        → attempt ≤ or_else o.max_server_retries 3
        → (out : Outcome R) × (sends : ℕ) × (dispatch_with_retry o replies fuel attempt
            ≡ some (out, sends))
          × (sends ≤ or_else o.max_server_retries 3 + 1)
          × Explains attempt out sends
    retry_total zero attempt off enough le = absurd (omega arith)
    retry_total (suc fuel) attempt off enough le = elim (Step-cases attempt (replies attempt)) [
      | inr (out, e) ↦
          (out, attempt + 1, Ends-step fuel attempt out e, omega arith, Explains-here e)
      | inl r ↦
          let lt = IsRetried-lt attempt (replies attempt) off r in
          let (out, sends, run, bound, x) =
            retry_total fuel (attempt + 1) off (omega arith) (omega arith) in
          (out, sends, retried_step fuel attempt r ∙ run, bound, Explains-later r x)
    ]

-- With retries of rate limits switched off, a request makes at most one send more than
-- `maxServerRetries` (3 if it is not set), and ends with the outcome of its last attempt: the
-- response; or the error, which was one not to retry, unless the client was disconnected
-- intentionally. Every earlier attempt failed with an error to retry.
pub dispatch_with_retry_total :
    {R : Type 0} (o : RetryOptions) (replies : ℕ → Reply R) (fuel : ℕ)
    → o.retry_rate_limits ≡ some false
    → or_else o.max_server_retries 3 < fuel
    → (out : Outcome R) × (sends : ℕ) × (dispatch_with_retry o replies fuel 0 ≡ some (out, sends))
      × (sends ≤ or_else o.max_server_retries 3 + 1)
      × Explains o replies 0 out sends
dispatch_with_retry_total o replies fuel off enough =
    retry_total o replies fuel 0 off (omega arith) (omega arith)
