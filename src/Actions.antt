-- ===== src/Actions.antt =====
-- sdk/typescript/src/actions.ts: the mapping of request errors into the public action errors, and
-- the payload with which a worker reports a failed handler.
pub mod Laws
use zyncbase.Errors
use zyncbase.Prelude.{false}
use zyncbase.Prelude.Text.{Text, text}
use zyncbase.Errors.{
  ErrorCode, Category, server, state, validation, unknown, ZyncBaseError, Thrown, zync,
  action_error, no_action_worker_error, action_timeout_error, worker_disconnected_error,
  action_validation_error, action_execution_error, no_action_worker, action_timeout,
  worker_disconnected, schema_validation_failed, permission_denied, session_not_ready,
  request_superseded, connection_failed, rate_limited, auth_failed, token_expired, internal_error,
  to_zync_error, action_class,
}

-- The `default` branch of `mapActionError`: by category.
abbrev pub map_by_category : Category → ZyncBaseError → ZyncBaseError
map_by_category server e = action_class action_execution_error e.code server e.message e.request_id
map_by_category unknown e = action_class action_execution_error e.code server e.message e.request_id
map_by_category _ e = e

abbrev pub map_by_code : ErrorCode → ZyncBaseError → ZyncBaseError
map_by_code no_action_worker e =
    action_class no_action_worker_error no_action_worker state e.message e.request_id
map_by_code action_timeout e =
    action_class action_timeout_error action_timeout server e.message e.request_id
map_by_code worker_disconnected e =
    action_class worker_disconnected_error worker_disconnected server e.message e.request_id
map_by_code schema_validation_failed e =
    action_class action_validation_error schema_validation_failed validation e.message e.request_id
map_by_code permission_denied e = e
map_by_code session_not_ready e = e
map_by_code request_superseded e = e
map_by_code connection_failed e = e
map_by_code rate_limited e = e
map_by_code auth_failed e = e
map_by_code token_expired e = e
map_by_code _ e = map_by_category e.category e

-- `mapActionError`
unfoldable pub map_action_error : Thrown → ZyncBaseError
unfolding to_zync_error action_class
map_action_error (zync e) = map_by_code e.code e
map_action_error t = to_zync_error t (text "Action failed") false

-- `actionErrorPayload`
unfoldable pub action_error_payload : Thrown → ErrorCode × Text
action_error_payload (action_error code message) = (code, message)
action_error_payload _ = (internal_error, text "Action handler failed")
