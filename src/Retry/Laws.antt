-- ===== src/Retry/Laws.antt =====
-- Bounds and growth of the delay.
use native.Mathlib.Nat.{mul-le-mul_left, mul-le-mul_right, pow-le-pow_right}
use zyncbase.Prelude.{ℕ, ◌*◌, ◌≤◌, ◌<◌, ◌≡◌, min, false, some, arith}
use zyncbase.Retry.{BackoffOptions, or_else, pre_cap, backoff_delay}

mul_mono_lt : (p r s : ℕ) → r < s → p * (2 * r) ≤ p * (2 * s)
mul_mono_lt p r s h = grind arith

-- With jitter or without, the delay lies within ten percent of `base * 2 ^ min attempt 30`, cut
-- off at `max`, whatever the random number is.
pub backoff_delay_bounds :
    (scale r attempt : ℕ) (opts : BackoffOptions)
    → r < scale
    → (min (pre_cap attempt opts * (9 * scale)) (or_else opts.max 30000 * (10 * scale))
        ≤ backoff_delay scale r attempt opts)
      × (backoff_delay scale r attempt opts
          ≤ min (pre_cap attempt opts * (11 * scale)) (or_else opts.max 30000 * (10 * scale)))
unfolding backoff_delay
backoff_delay_bounds scale r attempt opts h =
    ground (arith, mul_mono_lt (pre_cap attempt opts) r scale h)

min_mono : (a b : ℕ) → a ≤ b → min a 30 ≤ min b 30
min_mono a b h = omega arith

-- Without jitter the delay never falls from one attempt to a later one.
pub backoff_delay_mono :
    (scale r a b : ℕ) (opts : BackoffOptions)
    → opts.jitter ≡ some false
    → a ≤ b
    → backoff_delay scale r a opts ≤ backoff_delay scale r b opts
unfolding backoff_delay
backoff_delay_mono scale r a b opts j h = rw j (
    omega (
      arith,
      mul-le-mul_right (10 * scale) (
          mul-le-mul_left (or_else opts.base 1000)
            (pow-le-pow_right {n = 2} (omega arith) (min_mono a b h))),
    ))
