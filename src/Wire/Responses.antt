-- ===== src/Wire/Responses.antt =====
-- `decodeOkResponse` of connection_wire.ts: what a response holds depends on the request.
use zyncbase.Errors.{Thrown, plain_error, SchemaCode}
use zyncbase.Json.{
  Value, null, arr, obj, Fields, end, field, get_prop, set_prop, remove_prop, items,
}
use zyncbase.Prelude.Int.{ℤ, pos, negsuc}
use zyncbase.Prelude.Result.{Result, ok, err, ◌>>=◌}
use zyncbase.Schema.{SchemaDictionary, ActionSchemaEntry}
use zyncbase.Schema.Paths.{out_of_range}
use zyncbase.Schema.Records.{decode_record}
use zyncbase.Schema.Sparse.{
  decode_presence_user_value, decode_presence_shared_value, decode_action_returns, get_action,
}
use zyncbase.Wire.{
  Context, store_query, store_subscribe, store_load_more, presence_subscribe,
  presence_subscribe_shared, action_call,
}
use zyncbase.Wire.Encode.{map_items}
use zyncbase.Prelude.{Option, none, some, List, [], ◌∷◌, if◌then◌else◌}
use zyncbase.Prelude.Text.{text, Text}

-- `isStoreReadContext`
abbrev pub store_read_table : Context → Option ℤ
store_read_table c = elim c.kind as (λ _. Option ℤ) [
  | store_query ↦ c.response_table_index
  | store_subscribe ↦ c.response_table_index
  | store_load_more ↦ c.response_table_index
  | _ ↦ none
]

module _ (d : SchemaDictionary) where
  -- `decodeRow`
  unfoldable pub decode_row : ℤ → Value → Result Thrown Value
  unfolding decode_record
  decode_row (pos ti) (arr row) = do fs ← decode_record d ti (items row); ok (obj fs)
  decode_row (negsuc n) (arr row) = err (out_of_range SchemaCode.table_not_found)
  decode_row ti v = err (plain_error (text "Invalid positional store record"))

  -- `decodeStoreRows`
  unfoldable pub decode_store_rows : ℤ → Fields → Result Thrown Fields
  unfolding get_prop set_prop map_items decode_row
  decode_store_rows ti response =
      elim (get_prop (text "value") response) as (λ _. Result Thrown Fields) [
        | some (arr rows) ↦ do
          decoded ← map_items (decode_row ti) rows
          ok (set_prop (text "value") (arr decoded) response)
        | _ ↦ err (plain_error (text "Invalid positional store response"))
      ]

  -- The elements of a sparse array; what is none makes the decoders throw.
  abbrev pub elements_of : Option Value → Result Thrown (List Value)
  elements_of (some (arr vs)) = ok (items vs)
  elements_of _ = err (plain_error (text "not a sparse field array"))

  abbrev pub copy_prop : Text → Fields → Fields → Fields
  copy_prop key from rest = elim (get_prop key from) [ none ↦ rest | some v ↦ field key v rest ]

  -- The callback of `decodePresenceUsers`.
  unfoldable pub decode_presence_user : Value → Result Thrown Value
  unfolding get_prop decode_presence_user_value
  decode_presence_user (obj user) = do
    vs ← elements_of (get_prop (text "data") user)
    data_fields ← decode_presence_user_value d vs
    ok (
        obj (
          copy_prop (text "userId") user
            (field (text "data") (obj data_fields) (copy_prop (text "joinedAt") user end))))
  decode_presence_user v = err (plain_error (text "not a user"))

  -- `decodePresenceUsers`
  unfoldable pub decode_presence_users : Fields → Result Thrown Fields
  unfolding get_prop set_prop map_items decode_presence_user
  decode_presence_users response =
      elim (get_prop (text "users") response) as (λ _. Result Thrown Fields) [
        | some (arr users) ↦ do
          decoded ← map_items decode_presence_user users
          ok (set_prop (text "users") (arr decoded) response)
        | _ ↦ ok response
      ]

  -- The shared state of a response, where there is one.
  unfoldable pub decode_shared : Fields → Result Thrown Fields
  unfolding get_prop set_prop decode_presence_shared_value
  decode_shared response = elim (get_prop (text "shared") response) as (λ _. Result Thrown Fields) [
    | none ↦ ok response
    | some null ↦ ok response
    | some v ↦ do
      vs ← elements_of (some v)
      decoded ← decode_presence_shared_value d vs
      ok (set_prop (text "shared") (obj decoded) response)
  ]

  -- `decodeActionCallOk`; a property that is set to `undefined` is left out.
  unfoldable pub decode_action_call_ok : Fields → Text → Result Thrown Fields
  unfolding get_prop set_prop remove_prop get_action decode_action_returns
  decode_action_call_ok response name = do
    action ← get_action d name
    if action.has_returns
        then returned action response (get_prop (text "value") response)
        else ok response
    where
      returned : ActionSchemaEntry → Fields → Option Value → Result Thrown Fields
      returned action response (some (arr vs)) = do
        result ← decode_action_returns action (items vs)
        ok (set_prop (text "actionResult") (obj result) (remove_prop (text "value") response))
      returned action response v = err (plain_error (text "Invalid action returns payload"))

  -- `decodeOkResponse`
  unfoldable pub decode_ok_response : Fields → Option Context → Result Thrown Fields
  unfolding decode_store_rows decode_presence_users decode_shared decode_action_call_ok
  decode_ok_response response none = ok response
  decode_ok_response response (some c) = elim (store_read_table c) [
    | some ti ↦ decode_store_rows ti response
    | none ↦ elim c.kind as (λ _. Result Thrown Fields) [
      | presence_subscribe ↦ decode_presence_users response
      | presence_subscribe_shared ↦ decode_shared response
      | action_call ↦ elim c.action_name [
        | none ↦ ok response
        | some [] ↦ ok response
        | some (x ∷ name) ↦ decode_action_call_ok response (x ∷ name)
      ]
      | _ ↦ ok response
    ]
  ]
