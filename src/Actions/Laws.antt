-- ===== src/Actions/Laws.antt =====
-- `mapActionError` of actions.ts: mapping twice, what is kept, and retries.
use zyncbase.Prelude.{◌≡◌, refl, false, arith}
use zyncbase.Errors.{
  ErrorCode, server, ZyncBaseError, zync, auth_failed, ServerPayload, from_server_response,
  action_class,
}
use zyncbase.Actions.{map_action_error, map_by_code}

map_by_code_idempotent :
    (c : ErrorCode) (e : ZyncBaseError)
    → e.code ≡ c
    → map_by_code (map_by_code c e).code (map_by_code c e) ≡ map_by_code c e
unfolding action_class
map_by_code_idempotent auth_failed e h = ground arith
map_by_code_idempotent c e h = ground arith

-- Mapping a `ZyncBaseError` a second time changes nothing.
pub map_action_error_idempotent :
    (e : ZyncBaseError)
    → map_action_error (zync (map_action_error (zync e))) ≡ map_action_error (zync e)
unfolding map_action_error
map_action_error_idempotent e = map_by_code_idempotent e.code e refl

map_by_code_keeps :
    (c : ErrorCode) (e : ZyncBaseError)
    → e.code ≡ c
    → ((map_by_code c e).code ≡ c)
      × ((map_by_code c e).message ≡ e.message)
      × ((map_by_code c e).request_id ≡ e.request_id)
unfolding action_class
map_by_code_keeps auth_failed e h = ground arith
map_by_code_keeps c e h = ground arith

-- The mapping keeps the code, the message and the request id of a `ZyncBaseError`.
pub map_action_error_keeps :
    (e : ZyncBaseError)
    → ((map_action_error (zync e)).code ≡ e.code)
      × ((map_action_error (zync e)).message ≡ e.message)
      × ((map_action_error (zync e)).request_id ≡ e.request_id)
unfolding map_action_error
map_action_error_keeps e = map_by_code_keeps e.code e refl

map_by_code_server :
    (c : ErrorCode) (p : ServerPayload)
    → p.code ≡ c
    → (map_by_code c (from_server_response p)).category ≡ server
    → (map_by_code c (from_server_response p)).retryable ≡ false
unfolding action_class from_server_response
map_by_code_server auth_failed p h s = ground arith
map_by_code_server c p h s = ground arith

-- An error that the server reported for an action call and that ends up in the server category is
-- not retryable, although the same code may be retryable for other requests.
pub map_action_error-not-retryable :
    (p : ServerPayload)
    → (map_action_error (zync (from_server_response p))).category ≡ server
    → (map_action_error (zync (from_server_response p))).retryable ≡ false
unfolding map_action_error from_server_response
map_action_error-not-retryable p s = map_by_code_server p.code p refl s
