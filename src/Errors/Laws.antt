-- ===== src/Errors/Laws.antt =====
-- What the classification of error codes promises to the retry code.
use zyncbase.Prelude.{◌≡◌, true, arith, ◌⊎◌, ◌↔◌, ◌≢◌}
use zyncbase.Errors.{
  ErrorCode, rate_limit, server, network, derive_category, client_disconnect, retries_exhausted,
  action_timeout, worker_disconnected, auth_failed,
}

-- A code is retryable exactly if its category is the network, rate limit or server one and it is
-- none of the two terminal client codes and the two codes of an action that may have run.
pub derive_category-retryable_iff :
    (c : ErrorCode)
    → ((derive_category c).1 ≡ true) ↔ (
        (((derive_category c).0 ≡ network)
          ⊎ ((derive_category c).0 ≡ rate_limit)
          ⊎ ((derive_category c).0 ≡ server))
        × (c ≢ client_disconnect)
        × (c ≢ retries_exhausted)
        × (c ≢ action_timeout)
        × (c ≢ worker_disconnected))
unfolding derive_category
derive_category-retryable_iff auth_failed = ground arith
derive_category-retryable_iff c = ground arith
