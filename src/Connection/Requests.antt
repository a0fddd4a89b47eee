-- ===== src/Connection/Requests.antt =====
-- Requests and what the server sends: `sendRequest`, the branches of `dispatchInbound` and the
-- refresh of a token. Responses are decoded with the context that the request left.
use zyncbase.Pending
use zyncbase.Connection.{
  Connection, ConnectionOptions, is_connected, effect, error_event, schema_change, token_expired,
  send_message, resolve_schema_sync, reject_schema_sync,
}
use zyncbase.Connection.Closing.{server_disconnect_error}
use zyncbase.Connection.Liveness.{is_ping, note_correlated_response}
use zyncbase.Connection.Reconnecting.{network_error}
use zyncbase.Errors.{
  Thrown, zync, ZyncBaseError, new_error, message_or, invalid_message, validation,
}
use zyncbase.Prelude.Result.{Result, ok, err}
use zyncbase.Prelude.{ℕ, Bool, true, false, not, ◌&&◌, Option, none, some, if◌then◌else◌}
use zyncbase.Prelude.Text.{Text, text}

-- `err instanceof ZyncBaseError ? err : new ZyncBaseError(…)` of `handleSchemaSync`
abbrev pub schema_sync_error : Thrown → ZyncBaseError
schema_sync_error (zync e) = e
schema_sync_error t =
    new_error (message_or (text "Invalid SchemaSync payload") t) invalid_message validation false

module _ {C R : Type 0} where
  abbrev pub fail : ℕ → Thrown → Connection C R → Connection C R
  fail id reason c = record c { pending = (Pending.reject id reason c.pending).0 }

  -- `send`, for a socket that is open or not.
  unfoldable pub send : Bool → ℕ → Connection C R → Connection C R
  unfolding effect Pending.reject new_error
  send is_open id c =
      if c.socket && is_open
      then effect (send_message id) c
      else fail id (zync (network_error (text "WebSocket is not connected") true)) c

  -- `sendRequest`: `is_setup` says whether a namespace is set, `encoded` is the context that encoding
  -- left, or what it threw, to the caller.
  unfoldable pub send_request :
      (is_setup is_open : Bool) → Result Thrown C → Connection C R → Connection C R
  unfolding send Pending.next_id Pending.register Pending.reject new_error
  send_request is_setup is_open encoded c =
      let (taken, id) = Pending.next_id c.pending in
      elim encoded [
        | err t ↦ record c { pending = taken }
        | ok context ↦
            let registered = record c { pending = Pending.register id context taken } in
            if not is_setup && not (is_connected registered)
            then fail id (zync (network_error (text "Connection is not ready") true)) registered
            else send is_open id registered
      ]

  -- The end of the refresh that `handleTokenExpired` started, well or not.
  unfoldable pub refresh_finished : Bool → Connection C R → Connection C R
  unfolding effect
  refresh_finished success c =
      if c.refresh_in_flight
      then (let told = if success then c else effect token_expired c in
          record told { refresh_in_flight = false })
      else c

  -- `handleSchemaSync`: `applied` is what `applySchemaSync` gives or throws.
  unfoldable pub handle_schema_sync : Result Thrown Bool → Connection C R → Connection C R
  unfolding effect resolve_schema_sync reject_schema_sync new_error
  handle_schema_sync (err t) c =
      let error = zync (schema_sync_error t) in
      effect (error_event error) (reject_schema_sync error c)
  handle_schema_sync (ok changed) c =
      resolve_schema_sync (if changed then effect schema_change c else c)

module _ {C R : Type 0} (o : ConnectionOptions) (scale : ℕ) where
  -- `handleOkResponse`: `decode` is `decodeOkResponse` for this response. The result is whether the
  -- message is dealt with.
  unfoldable pub handle_ok_response :
      ℕ → (C → Result Thrown R) → Connection C R → Connection C R × Bool
  unfolding note_correlated_response Pending.context Pending.resolve Pending.reject
  handle_ok_response id decode c =
      if is_ping id c
      then (note_correlated_response o scale id c, true)
      else elim (Pending.context id c.pending) [
        | none ↦ (c, false)
        | some context ↦
            let noted = note_correlated_response o scale id c in
            elim (decode context) [
              | ok value ↦
                  (record noted { pending = (Pending.resolve id value noted.pending).0 }, false)
              | err t ↦ (fail id t noted, false)
            ]
      ]

  -- `handleErrorResponse`: `reason` is `errorResponseToError` of the message.
  unfoldable pub handle_error_response : Option ℕ → Thrown → Connection C R → Connection C R × Bool
  unfolding note_correlated_response Pending.reject
  handle_error_response none reason c = (c, false)
  handle_error_response (some id) reason c =
      if is_ping id c
      then (note_correlated_response o scale id c, true)
      else (let (rejected, found) = Pending.reject id reason c.pending in
          let settled = record c { pending = rejected } in
          if found then (note_correlated_response o scale id settled, false) else (settled, false))

module _ {C R : Type 0} (o : ConnectionOptions) where
  -- `handleTokenExpired`
  unfoldable pub handle_token_expired : Connection C R → Connection C R
  unfolding effect
  handle_token_expired c =
      if o.token_provider then record c { refresh_in_flight = true } else effect token_expired c

-- The messages that change the state of the class; the others are handed on to the handlers.
pub data Inbound (C R : Type 0) : Type 0 where
  schema_sync_message : Result Thrown Bool → Inbound C R
  ok_message : ℕ → (C → Result Thrown R) → Inbound C R
  error_message : Option ℕ → (is_token_expired : Bool) → Thrown → Inbound C R
  server_disconnect : (code message : Text) → Inbound C R
  push_message : Inbound C R

-- `dispatchInbound`, less the handlers of other classes.
unfoldable pub dispatch_inbound :
    {C R : Type 0} → ConnectionOptions → ℕ → Inbound C R → Connection C R → Connection C R
unfolding handle_ok_response handle_error_response handle_token_expired handle_schema_sync
    server_disconnect_error
dispatch_inbound o scale (schema_sync_message applied) c = handle_schema_sync applied c
dispatch_inbound o scale (ok_message id decode) c = (handle_ok_response o scale id decode c).0
dispatch_inbound o scale (error_message id is_token_expired reason) c =
    let (after, done) = handle_error_response o scale id reason c in
    if not done && is_token_expired then handle_token_expired o after else after
dispatch_inbound o scale (server_disconnect code message) c = record c {
  pending_disconnect_error = some (server_disconnect_error code message);
}
dispatch_inbound o scale push_message c = c
