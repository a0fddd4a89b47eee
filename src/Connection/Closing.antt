-- ===== src/Connection/Closing.antt =====
-- The errors that the end of a connection gives: `serverDisconnectError`, `socketCloseError`, and
-- which of them `handleSocketClose` takes.
use zyncbase.Errors.{
  ErrorCode, auth_failed, token_expired, server_shutdown, backpressure_limit, max_connections,
  connection_failed, internal_error, ZyncBaseError, from_server_response,
}
use zyncbase.Prelude.{ℕ, Bool, true, false, ◌||◌, Option, none, some, [], ◌∷◌, ◌==◌, if◌then◌else◌}
use zyncbase.Prelude.Text.{Text, text, text_eq}

-- `SERVER_DISCONNECT_CODES`
unfoldable pub server_disconnect_code : Text → ErrorCode
server_disconnect_code code =
    if text_eq code (text "AUTH_FAILED")
    then auth_failed
    else if text_eq code (text "TOKEN_EXPIRED")
    then token_expired
    else if text_eq code (text "SERVER_SHUTDOWN")
    then server_shutdown
    else if text_eq code (text "BACKPRESSURE_LIMIT")
    then backpressure_limit
    else if text_eq code (text "MAX_CONNECTIONS")
    then max_connections
    else internal_error

-- `SOCKET_CLOSE_CODES`, with the spelling of the code.
unfoldable pub socket_close_code : ℕ → Option (ErrorCode × Text)
socket_close_code code =
    if code == 4001
    then some (auth_failed, text "AUTH_FAILED")
    else if code == 4002
    then some (server_shutdown, text "SERVER_SHUTDOWN")
    else if code == 4004
    then some (backpressure_limit, text "BACKPRESSURE_LIMIT")
    else if code == 4005
    then some (max_connections, text "MAX_CONNECTIONS")
    else if code == 4006
    then some (token_expired, text "TOKEN_EXPIRED")
    else none

-- `message || fallback`
abbrev pub or_text : Text → Text → Text
or_text [] fallback = fallback
or_text (c ∷ s) fallback = c ∷ s

abbrev pub from_code : ErrorCode → Text → ZyncBaseError
from_code code message = from_server_response (record {
  code = code;
  message = message;
  retry_after = none;
  request_id = none;
  path = none;
  details = none;
})

-- `serverDisconnectError`
unfoldable pub server_disconnect_error : Text → Text → ZyncBaseError
unfolding server_disconnect_code from_server_response
server_disconnect_error code message =
    from_code (server_disconnect_code code) (or_text message code)

-- `socketCloseError`
unfoldable pub socket_close_error : ℕ → Text → ZyncBaseError
unfolding socket_close_code from_server_response
socket_close_error code reason = elim (socket_close_code code) [
  | none ↦ from_code connection_failed (or_text reason (text "Connection closed"))
  | some (known, spelled) ↦ from_code known (or_text reason spelled)
]

-- Equality of the codes that these two functions give; `other` is not among them.
unfoldable pub same_code : ErrorCode → ErrorCode → Bool
same_code auth_failed auth_failed = true
same_code token_expired token_expired = true
same_code server_shutdown server_shutdown = true
same_code backpressure_limit backpressure_limit = true
same_code max_connections max_connections = true
same_code connection_failed connection_failed = true
same_code internal_error internal_error = true
same_code _ _ = false

-- The error of `handleSocketClose`: what the socket says, unless that says nothing or the same as the
-- message of the server did.
unfoldable pub close_reason : Option ZyncBaseError → ZyncBaseError → ZyncBaseError
unfolding same_code
close_reason none close_error = close_error
close_reason (some message_error) close_error =
    if same_code close_error.code connection_failed || same_code message_error.code close_error.code
    then message_error
    else close_error
