-- ===== src/Errors.antt =====
-- sdk/typescript/src/errors.ts: the codes, the classification of a code, and the wrapping of a
-- thrown value. A code is a string in the source; one that is not listed is `other`.
pub mod Laws
use zyncbase.Prelude.{ℕ, Bool, true, false, Option, none, List}
use zyncbase.Prelude.Text.{Text}
use zyncbase.Json.{Fields}

pub data ErrorCode : Type 0 where
  auth_failed token_expired max_connections server_shutdown backpressure_limit : ErrorCode
  session_not_ready namespace_unauthorized permission_denied collection_not_found : ErrorCode
  schema_validation_failed unique_constraint_violated field_not_found : ErrorCode
  invalid_field_name invalid_array_element invalid_message rate_limited : ErrorCode
  message_too_large connection_failed client_disconnect retries_exhausted timeout : ErrorCode
  internal_error engine_unhealthy invalid_path batch_too_large response_too_large : ErrorCode
  request_superseded namespace_switch_rejected immutable_field : ErrorCode
  invalid_message_format invalid_message_type subscription_not_found : ErrorCode
  no_action_worker action_timeout worker_disconnected : ErrorCode
  other : Text → ErrorCode

pub data Category : Type 0 where
  authentication authorization state rate_limit server network validation client : Category
  unknown : Category

-- `deriveCategory`: the category, and whether a request may be retried.
unfoldable pub derive_category : ErrorCode → Category × Bool
derive_category auth_failed = (authentication, false)
derive_category token_expired = (authentication, false)
derive_category namespace_unauthorized = (authorization, false)
derive_category permission_denied = (authorization, false)
derive_category session_not_ready = (state, false)
derive_category request_superseded = (state, false)
derive_category namespace_switch_rejected = (state, false)
derive_category subscription_not_found = (state, false)
derive_category no_action_worker = (state, false)
derive_category max_connections = (rate_limit, true)
derive_category server_shutdown = (server, true)
derive_category backpressure_limit = (network, true)
derive_category rate_limited = (rate_limit, true)
derive_category action_timeout = (server, false)
derive_category worker_disconnected = (server, false)
derive_category internal_error = (server, true)
derive_category engine_unhealthy = (server, true)
derive_category schema_validation_failed = (validation, false)
derive_category unique_constraint_violated = (validation, false)
derive_category field_not_found = (validation, false)
derive_category invalid_field_name = (validation, false)
derive_category invalid_array_element = (validation, false)
derive_category invalid_message = (validation, false)
derive_category collection_not_found = (validation, false)
derive_category immutable_field = (validation, false)
derive_category invalid_message_format = (validation, false)
derive_category invalid_message_type = (validation, false)
derive_category connection_failed = (network, true)
derive_category timeout = (network, true)
derive_category client_disconnect = (network, false)
derive_category retries_exhausted = (network, false)
derive_category invalid_path = (client, false)
derive_category batch_too_large = (client, false)
derive_category message_too_large = (client, false)
derive_category response_too_large = (client, false)
derive_category (other _) = (unknown, false)

-- The classes that set `this.name`.
pub data ErrorName : Type 0 where
  zync_base_error no_action_worker_error action_timeout_error : ErrorName
  worker_disconnected_error action_validation_error action_execution_error : ErrorName

pub record ZyncBaseError : Type 0 where
  pub name : ErrorName
  pub message : Text
  pub code : ErrorCode
  pub category : Category
  pub retryable : Bool
  pub retry_after : Option ℕ
  pub request_id : Option ℕ
  pub path : Option (List Text)
  pub details : Option Fields

-- `new ZyncBaseError(message, { code, category, retryable })`
unfoldable pub new_error : Text → ErrorCode → Category → Bool → ZyncBaseError
new_error message code category retryable = record {
  name = zync_base_error;
  message = message;
  code = code;
  category = category;
  retryable = retryable;
  retry_after = none;
  request_id = none;
  path = none;
  details = none;
}

pub record ServerPayload : Type 0 where
  pub code : ErrorCode
  pub message : Text
  pub retry_after : Option ℕ
  pub request_id : Option ℕ
  pub path : Option (List Text)
  pub details : Option Fields

-- `ZyncBaseError.fromServerResponse`
unfoldable pub from_server_response : ServerPayload → ZyncBaseError
unfolding derive_category
from_server_response p = record {
  name = zync_base_error;
  message = p.message;
  code = p.code;
  category = (derive_category p.code).0;
  retryable = (derive_category p.code).1;
  retry_after = p.retry_after;
  request_id = p.request_id;
  path = p.path;
  details = p.details;
}

-- The codes of `SchemaError`.
pub data SchemaCode : Type 0 where
  table_not_found field_not_found action_not_found invalid_path : SchemaCode
  invalid_message_format : SchemaCode

-- What a `catch` receives: an instance of `ZyncBaseError`, an `ActionError`, a `SchemaError`, another
-- `Error` with its message, or a value that is no `Error`.
pub data Thrown : Type 0 where
  zync : ZyncBaseError → Thrown
  action_error : ErrorCode → Text → Thrown
  schema_error : SchemaCode → Text → Thrown
  plain_error : Text → Thrown
  thrown_value : Thrown

-- `err instanceof Error ? err.message : fallback`
abbrev pub message_or : Text → Thrown → Text
message_or fallback (zync e) = e.message
message_or fallback (action_error code message) = message
message_or fallback (schema_error code message) = message
message_or fallback (plain_error message) = message
message_or fallback thrown_value = fallback

-- `toZyncError`
unfoldable pub to_zync_error : Thrown → Text → Bool → ZyncBaseError
unfolding new_error
to_zync_error (zync e) fallback retryable = e
to_zync_error t fallback retryable =
    new_error (message_or fallback t) internal_error server retryable

-- `toConnectionError`
unfoldable pub to_connection_error : Thrown → Text → ZyncBaseError
unfolding new_error
to_connection_error (zync e) fallback = e
to_connection_error t fallback = new_error (message_or fallback t) connection_failed network true

-- The constructors of the action errors.
unfoldable pub action_class : ErrorName → ErrorCode → Category → Text → Option ℕ → ZyncBaseError
unfolding new_error
action_class name code category message request_id =
    record (new_error message code category false) { name = name; request_id = request_id }
