-- ===== src/Schema/Sparse.antt =====
-- Sparse field arrays of schema_dictionary.ts: a field's index, then its value, and so on. The user
-- and shared data of presence and the parameters and results of actions travel that way.
use zyncbase.Schema.{SchemaDictionary, ActionSchemaEntry}
use zyncbase.Schema.Paths.{or_throw}
use zyncbase.Errors.{Thrown, SchemaCode, schema_error, field_not_found, action_not_found}
use zyncbase.Json.{Value, num, Fields, end, field, set_prop}
use zyncbase.Path.{flatten, set_deep}
use zyncbase.Prelude.Dict.{Dict, lookup}
use zyncbase.Prelude.Int.{pos}
use zyncbase.Prelude.Result.{Result, ok, err, ◌>>=◌}
use zyncbase.Prelude.{
  ℕ, ◌%◌, Option, none, some, List, [], ◌∷◌, ◌++◌, ◌==◌, if◌then◌else◌, length, get_elem?, Bool,
  ltb,
}
use zyncbase.Prelude.Text.{Text, text}

-- What an error message says of an unknown key, between its two parts.
abbrev pub unknown_key : Text → Text → Text → Thrown
unknown_key before key after =
    schema_error field_not_found (text "SchemaDictionary: " ++ (before ++ (key ++ after)))

-- The loop of `encodePresenceUserValue`, `encodePresenceSharedValue` and `encodeActionFields` over
-- the flat data.
unfoldable pub encode_flat : (Text → Thrown) → Dict ℕ → Fields → Result Thrown (List Value)
unfolding lookup
encode_flat unknown m end = ok []
encode_flat unknown m (field key v fs) = do
  index ← or_throw (lookup key m) (unknown key)
  rest ← encode_flat unknown m fs
  ok (num (pos index) ∷ v ∷ rest)

-- `encodePresenceUserValue`
unfoldable pub encode_presence_user_value : SchemaDictionary → Fields → Result Thrown (List Value)
unfolding encode_flat flatten
encode_presence_user_value d fs =
    encode_flat (λ key. unknown_key (text "unknown presence user field \"") key (text "\""))
      d.presence_user_field_to_index (flatten fs [])

-- `encodePresenceSharedValue`
unfoldable pub encode_presence_shared_value : SchemaDictionary → Fields → Result Thrown (List Value)
unfolding encode_flat flatten
encode_presence_shared_value d fs =
    encode_flat (λ key. unknown_key (text "unknown presence shared field \"") key (text "\""))
      d.presence_shared_field_to_index (flatten fs [])

-- `encodeActionFields`
unfoldable pub encode_action_fields : Fields → Dict ℕ → Text → Result Thrown (List Value)
unfolding encode_flat flatten
encode_action_fields fs m label =
    encode_flat (λ key. unknown_key (text "unknown field \"") key (text "\" in " ++ label)) m
      (flatten fs [])

-- `assertSparseLength`
abbrev pub odd_length : Text → Thrown
odd_length label =
    schema_error SchemaCode.invalid_message_format
      (text "SchemaDictionary: odd-length sparse field array for " ++ label)

-- `fields[index]`; what is no index gives `undefined`.
abbrev pub name_at : List Text → Value → Option (Text × ℕ)
name_at names (num (pos i)) = elim (get_elem? names i) [ none ↦ none | some name ↦ some (name, i) ]
name_at names _ = none

-- `if (fieldPath) setDeepProperty(result, fieldPath, value); else result[fieldName] = value;`
unfoldable pub place : Option (List Text) → Text → Value → Fields → Fields
unfolding set_deep set_prop
place none name v result = set_prop name v result
place (some path) name v result = set_deep result path v

abbrev pub path_at : List (Option (List Text)) → ℕ → Option (List Text)
path_at paths i = elim (get_elem? paths i) [ none ↦ none | some path ↦ path ]

-- The loop of the decoders, for an even length.
unfoldable pub decode_pairs :
    Thrown → List Text → List (Option (List Text)) → Fields → List Value → Result Thrown Fields
unfolding place
decode_pairs unknown names paths result (index ∷ v ∷ rest) = do
  (name, i) ← or_throw (name_at names index) unknown
  decode_pairs unknown names paths (place (path_at paths i) name v result) rest
decode_pairs unknown names paths result _ = ok result

-- `decodeActionFields`; the decoders of presence differ in the texts of their errors only.
unfoldable pub decode_fields :
    (label unknown : Text)
    → List Text
    → List (Option (List Text))
    → List Value
    → Result Thrown Fields
unfolding decode_pairs
decode_fields label unknown names paths wire =
    if length wire % 2 == 0
    then decode_pairs (schema_error field_not_found (text "SchemaDictionary: " ++ unknown)) names
        paths end wire
    else err (odd_length label)

-- `decodePresenceUserValue`
unfoldable pub decode_presence_user_value : SchemaDictionary → List Value → Result Thrown Fields
unfolding decode_fields
decode_presence_user_value d wire =
    decode_fields (text "presence user data") (text "unknown presence user field index")
      d.presence_user_fields d.presence_user_field_paths wire

-- `decodePresenceSharedValue`
unfoldable pub decode_presence_shared_value : SchemaDictionary → List Value → Result Thrown Fields
unfolding decode_fields
decode_presence_shared_value d wire =
    decode_fields (text "presence shared data") (text "unknown presence shared field index")
      d.presence_shared_fields d.presence_shared_field_paths wire

-- `hasPresenceUserFields` and `hasPresenceSharedFields`
unfoldable pub has_presence_user_fields : SchemaDictionary → Bool
has_presence_user_fields d = ltb 0 (length d.presence_user_fields)

unfoldable pub has_presence_shared_fields : SchemaDictionary → Bool
has_presence_shared_fields d = ltb 0 (length d.presence_shared_fields)

abbrev pub params_label : ActionSchemaEntry → Text
params_label action = text "action \"" ++ (action.name ++ text "\" params")

abbrev pub returns_label : ActionSchemaEntry → Text
returns_label action = text "action \"" ++ (action.name ++ text "\" returns")

-- `encodeActionParams`, `encodeActionReturns`, `decodeActionParams`, `decodeActionReturns`
unfoldable pub encode_action_params : ActionSchemaEntry → Fields → Result Thrown (List Value)
unfolding encode_action_fields
encode_action_params action fs =
    encode_action_fields fs action.param_field_to_index (params_label action)

unfoldable pub encode_action_returns : ActionSchemaEntry → Fields → Result Thrown (List Value)
unfolding encode_action_fields
encode_action_returns action fs =
    encode_action_fields fs action.return_field_to_index (returns_label action)

unfoldable pub decode_action_params : ActionSchemaEntry → List Value → Result Thrown Fields
unfolding decode_fields
decode_action_params action wire =
    decode_fields (params_label action) (text "unknown field index in " ++ params_label action)
      action.params action.param_paths wire

unfoldable pub decode_action_returns : ActionSchemaEntry → List Value → Result Thrown Fields
unfolding decode_fields
decode_action_returns action wire =
    decode_fields (returns_label action) (text "unknown field index in " ++ returns_label action)
      action.returns action.return_paths wire

-- `getAction`
unfoldable pub get_action : SchemaDictionary → Text → Result Thrown ActionSchemaEntry
unfolding lookup
get_action d name = do
  index ← or_throw (lookup name d.action_to_index) (
      schema_error action_not_found
        (text "SchemaDictionary: unknown action \"" ++ (name ++ text "\"")))
  or_throw (get_elem? d.actions_by_index index)
      (schema_error action_not_found (text "SchemaDictionary: unknown action index"))

-- `getActionName`
unfoldable pub get_action_name : SchemaDictionary → ℕ → Result Thrown Text
get_action_name d index = do
  action ←
      or_throw (get_elem? d.actions_by_index index)
        (schema_error action_not_found (text "SchemaDictionary: unknown action index"))
  ok action.name
