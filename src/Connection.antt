-- ===== src/Connection.antt =====
-- `ConnectionManager` of sdk/typescript/src/connection.ts as a state and handlers on it. A handler
-- runs to its end before the next one starts, so each is one function; what the surroundings decide
-- (whether the socket is open, what encoding gave, the random number) comes with the call. `effects`
-- is what the outside sees, in order: the events of `emit`, and the calls of the socket.
pub mod Closing
pub mod Liveness
pub mod Reconnecting
pub mod Requests
pub mod Steps
pub mod Effects
pub mod Calls
pub mod Invariant
pub mod Safety
pub mod Quiet
pub mod Outcomes
use zyncbase.Pending
use zyncbase.Errors.{ErrorCode, Category, Thrown, ZyncBaseError}
use zyncbase.Retry.{BackoffOptions}
use zyncbase.Prelude.{ℕ, Bool, false, Option, none, some, List, [], ◌∷◌, ◌++◌, true}
use zyncbase.Prelude.Text.{Text}

pub data Status : Type 0 where
  connecting connected reconnecting disconnected : Status

pub record StatusDetail : Type 0 where
  pub previous_status : Status
  pub retry_count : ℕ
  pub retry_in : Option ℕ
  pub error : Option Thrown

pub record DisconnectDetail : Type 0 where
  pub code : ErrorCode
  pub reason : Text
  pub category : Category
  pub retryable : Bool
  pub attempt : ℕ

-- The events of `emit` with their arguments, `ws.close()`, and `ws.send` with the id of the message.
pub data Effect : Type 0 where
  status_change : Status → StatusDetail → Effect
  connected_event : Effect
  disconnected_event : DisconnectDetail → Effect
  reconnecting_event : ℕ → ℕ → Effect
  error_event : Thrown → Effect
  schema_change : Effect
  token_expired : Effect
  close_socket : Effect
  send_message : ℕ → Effect

-- The promise of `awaitSchemaSync`: the first one never settles, each `connect` makes a new one.
pub data SyncPromise : Type 0 where
  never waiting synced : SyncPromise
  failed : Thrown → SyncPromise

-- What `livenessTimer` waits for: a part of the time up to the next probe, with what is left behind
-- it, or the answer to the ping with the given id.
pub data LivenessTimer : Type 0 where
  probe : (wait rest : ℕ) → LivenessTimer
  ping_timeout : ℕ → LivenessTimer

-- The options that the class reads; `token_provider` says whether `auth` has one.
pub record ConnectionOptions : Type 0 where
  pub reconnect : Option Bool
  pub backoff : BackoffOptions
  pub max_reconnect_attempts : Option ℕ
  pub liveness_enabled : Bool
  pub liveness_interval : ℕ
  pub liveness_timeout : ℕ
  pub token_provider : Bool

-- The fields of the class. `socket` says whether `ws` is set.
pub record Connection (C R : Type 0) : Type 0 where
  pub socket : Bool
  pub pending : Pending.Pending C R Thrown
  pub reconnect_attempt : ℕ
  pub reconnect_timer : Option ℕ
  pub intentional_disconnect : Bool
  pub current_status : Status
  pub schema_sync : SyncPromise
  pub refresh_in_flight : Bool
  pub liveness_timer : Option LivenessTimer
  pub liveness_ping_id : Option ℕ
  pub pending_disconnect_error : Option ZyncBaseError
  pub effects : List Effect

unfoldable pub new_connection : {C R : Type 0} → Connection C R
unfolding Pending.new
new_connection = record {
  socket = false;
  pending = Pending.new;
  reconnect_attempt = 0;
  reconnect_timer = none;
  intentional_disconnect = false;
  current_status = disconnected;
  schema_sync = never;
  refresh_in_flight = false;
  liveness_timer = none;
  liveness_ping_id = none;
  pending_disconnect_error = none;
  effects = [];
}

module _ {C R : Type 0} where
  unfoldable pub effect : Effect → Connection C R → Connection C R
  effect e c = record c { effects = c.effects ++ e ∷ [] }

  -- `setStatus`; a detail that is not given counts as the attempts so far and nothing else.
  unfoldable pub set_status :
      Status → (retry_count retry_in : Option ℕ) → Option Thrown → Connection C R → Connection C R
  unfolding effect
  set_status status retry_count retry_in error c =
      effect
        (status_change status (record {
          previous_status = c.current_status;
          retry_count = elim retry_count [ none ↦ c.reconnect_attempt | some n ↦ n ];
          retry_in = retry_in;
          error = error;
        }))
        (record c { current_status = status })

  -- `resolveSchemaSync` and `rejectSchemaSync`: they act on a waiting promise only.
  unfoldable pub resolve_schema_sync : Connection C R → Connection C R
  resolve_schema_sync c = elim c.schema_sync [
    | waiting ↦ record c { schema_sync = synced }
    | never ↦ c
    | synced ↦ c
    | failed t ↦ c
  ]

  unfoldable pub reject_schema_sync : Thrown → Connection C R → Connection C R
  reject_schema_sync reason c = elim c.schema_sync [
    | waiting ↦ record c { schema_sync = failed reason }
    | never ↦ c
    | synced ↦ c
    | failed t ↦ c
  ]

  abbrev pub is_connected : Connection C R → Bool
  is_connected c = elim c.current_status [
    | connected ↦ true
    | connecting ↦ false
    | reconnecting ↦ false
    | disconnected ↦ false
  ]

  -- `isSchemaReady`, for a dictionary that is ready or not.
  unfoldable pub is_schema_ready : Bool → Connection C R → Bool
  is_schema_ready dictionary_ready c = elim c.current_status [
    | connected ↦ elim c.schema_sync [
      | waiting ↦ false
      | never ↦ dictionary_ready
      | synced ↦ dictionary_ready
      | failed t ↦ dictionary_ready
    ]
    | connecting ↦ false
    | reconnecting ↦ false
    | disconnected ↦ false
  ]
