-- ===== src/Wire/Encode.antt =====
-- The encoders of `ConnectionWireCodec`. They look at the properties of a request and rewrite those
-- that hold names. A path whose first segment is a text has only texts, as the cast of the source
-- says; the model throws for any other.
use zyncbase.Prelude.Int.{ℤ, pos}
use zyncbase.Prelude.Result.{Result, ok, err, ◌>>=◌}
use zyncbase.Wire.{
  MessageType, store_set, store_remove, store_batch, store_query, store_subscribe, store_load_more,
  presence_set, presence_set_shared, action_call, action_register, wire_type, is_outbound,
  store_family, presence_family, action_family, other_family, family_of, Context, decimal,
}
use zyncbase.Errors.{
  Thrown, zync, schema_error, plain_error, table_not_found, ZyncBaseError, new_error,
  collection_not_found, invalid_message, validation, SchemaCode, ErrorCode, message_or,
}
use zyncbase.Json.{
  Value, null, bool, num, str, bytes, arr, obj, Items, nil, cons, Fields, end, field, get_prop,
  set_prop, from_items,
}
use zyncbase.Schema.{SchemaDictionary}
use zyncbase.Schema.Paths.{
  WirePath, nothing, table, document, field_at, DocRef, packed, plain, encode_path, get_table_index,
  get_field_index,
}
use zyncbase.Schema.Records.{encode_value, encode_field_value}
use zyncbase.Schema.Sparse.{
  encode_presence_user_value, encode_presence_shared_value, get_action, encode_action_params,
}
use zyncbase.Prelude.{ℕ, suc, Bool, Option, none, some, List, [], ◌∷◌, if◌then◌else◌, true, false}
use zyncbase.Prelude.Text.{Text, text, text_eq}

-- A wire path as a value.
abbrev pub doc_value : DocRef → Value
doc_value (packed bs) = bytes bs
doc_value (plain id) = str id

unfoldable pub path_value : WirePath → Value
path_value nothing = arr nil
path_value (table ti) = arr (cons (num ti) nil)
path_value (document ti doc) = arr (cons (num ti) (cons (doc_value doc) nil))
path_value (field_at ti doc fi) = arr (cons (num ti) (cons (doc_value doc) (cons (num fi) nil)))

-- `encodedPath[0]`, for a path from `encodePath`.
abbrev pub table_of : WirePath → ℕ
table_of (table (pos ti)) = ti
table_of (document (pos ti) doc) = ti
table_of (field_at (pos ti) doc fi) = ti
table_of _ = 0

-- The cast `path as string[]`.
unfoldable pub segments_of : Items → Result Thrown (List Text)
segments_of nil = ok []
segments_of (cons (str s) vs) = do rest ← segments_of vs; ok (s ∷ rest)
segments_of (cons v vs) = err (plain_error (text "a segment of a path is no text"))

-- `Array.isArray(path) && path.length > 0 && typeof path[0] === "string"`
abbrev pub logical_path : Option Value → Option Items
logical_path (some (arr (cons (str s) vs))) = some (cons (str s) vs)
logical_path _ = none

-- The properties of a byte array.
unfoldable pub byte_fields : ℕ → List ℕ → Fields
unfolding decimal
byte_fields i [] = end
byte_fields i (b ∷ bs) = field (decimal i) (num (pos b)) (byte_fields (suc i) bs)

-- `array.map(f)`, for an `f` that can throw.
unfoldable pub map_items : (Value → Result Thrown Value) → Items → Result Thrown Items
map_items f nil = ok nil
map_items f (cons v vs) = do w ← f v; ws ← map_items f vs; ok (cons w ws)

module _ (d : SchemaDictionary) where
  -- A value at a table: an object that is no array is encoded property by property.
  unfoldable pub encode_object : ℕ → Value → Result Thrown Value
  unfolding encode_value byte_fields
  encode_object ti (obj fs) = do vs ← encode_value d ti fs; ok (arr (from_items vs))
  encode_object ti (bytes bs) = do
    vs ← encode_value d ti (byte_fields 0 bs)
    ok (arr (from_items vs))
  encode_object ti v = ok v

  unfoldable pub encode_logical : Items → Result Thrown WirePath
  unfolding segments_of encode_path
  encode_logical path = do segments ← segments_of path; encode_path d segments

  -- `wire.value` of a StoreSet, where there is one.
  unfoldable pub encode_set_value : ℕ → Fields → Result Thrown Fields
  unfolding get_prop set_prop encode_object
  encode_set_value ti wire = elim (get_prop (text "value") wire) [
    | none ↦ ok wire
    | some v ↦ do w ← encode_object ti v; ok (set_prop (text "value") w wire)
  ]

  -- `encodeStoreSetRemove` behind its test.
  unfoldable pub place_path : Bool → Fields → WirePath → Result Thrown Fields
  unfolding set_prop path_value encode_set_value
  place_path is_set wire encoded =
      let placed = set_prop (text "path") (path_value encoded) wire in
      if is_set then encode_set_value (table_of encoded) placed else ok placed

  -- `encodeStoreSetRemove`
  unfoldable pub encode_store_set_remove : Bool → Fields → Result Thrown Fields
  unfolding get_prop encode_logical place_path
  encode_store_set_remove is_set wire = elim (logical_path (get_prop (text "path") wire)) [
    | none ↦ ok wire
    | some path ↦ encode_logical path >>= place_path is_set wire
  ]

  -- `op[2]`; a missing one is `undefined`, which is packed like `null`.
  abbrev pub third : Items → Value
  third nil = null
  third (cons v vs) = v

  abbrev pub is_text : Text → Value → Bool
  is_text t (str s) = text_eq s t
  is_text t v = false

  -- What `encodeBatchOp` returns for an encoded path.
  unfoldable pub encode_op : Value → Items → WirePath → Result Thrown Value
  unfolding path_value encode_object
  encode_op kind rest encoded =
      if is_text (text "r") kind
      then ok (arr (cons (str (text "r")) (cons (path_value encoded) nil)))
      else if is_text (text "s") kind
      then set_op (path_value encoded) (encode_object (table_of encoded) (third rest))
      else set_op (path_value encoded) (ok (third rest))
    where
      set_op : Value → Result Thrown Value → Result Thrown Value
      set_op path value = do v ← value; ok (arr (cons (str (text "s")) (cons path (cons v nil))))

  -- `encodeBatchOp`
  unfoldable pub encode_batch_op : Value → Result Thrown Value
  unfolding encode_logical encode_op
  encode_batch_op (arr (cons kind (cons raw_path rest))) = elim (logical_path (some raw_path)) [
    | none ↦ ok (arr (cons kind (cons raw_path rest)))
    | some path ↦ encode_logical path >>= encode_op kind rest
  ]
  encode_batch_op op = ok op

  -- A property that is rewritten if it is an array: `encodeStoreBatch`, and the parts of
  -- `encodeStoreRead`.
  unfoldable pub map_prop : Text → (Value → Result Thrown Value) → Fields → Result Thrown Fields
  unfolding get_prop set_prop map_items
  map_prop key f wire = elim (get_prop key wire) [
    | some (arr vs) ↦ do ws ← map_items f vs; ok (set_prop key (arr ws) wire)
    | some null ↦ ok wire
    | some (bool b) ↦ ok wire
    | some (num n) ↦ ok wire
    | some (str s) ↦ ok wire
    | some (bytes bs) ↦ ok wire
    | some (obj fs) ↦ ok wire
    | none ↦ ok wire
  ]

  -- `typeof field === "string" ? getFieldIndex(tableIndex, field) : field`
  unfoldable pub field_value : ℕ → Value → Result Thrown Value
  unfolding get_field_index
  field_value ti (str name) = do fi ← get_field_index d ti name; ok (num (pos fi))
  field_value ti v = ok v

  -- `encodeFieldValue` at an index that was a field of the condition.
  unfoldable pub encode_at : ℕ → Value → Value → Result Thrown Value
  unfolding encode_field_value
  encode_at ti (num (pos fi)) v = encode_field_value d ti fi v
  encode_at ti _ v = err (
      schema_error SchemaCode.field_not_found
        (text "SchemaDictionary: field index out of range for table index"))

  -- One condition of `encodeConditions`; what stands behind the third element is dropped.
  unfoldable pub encode_condition : ℕ → Value → Result Thrown Value
  unfolding field_value encode_at
  encode_condition ti (arr (cons f (cons op nil))) = do
    index ← field_value ti f
    ok (arr (cons index (cons op nil)))
  encode_condition ti (arr (cons f (cons op (cons v vs)))) = do
    index ← field_value ti f
    w ← encode_at ti index v
    ok (arr (cons index (cons op (cons w nil))))
  encode_condition ti cond = ok cond

  -- One tuple of `encodeOrderBy`.
  unfoldable pub encode_order : ℕ → Value → Result Thrown Value
  unfolding field_value
  encode_order ti (arr (cons f (cons dir nil))) = do
    index ← field_value ti f
    ok (arr (cons index (cons dir nil)))
  encode_order ti tuple = ok tuple

  -- `encodeStoreRead`
  unfoldable pub encode_store_read : Fields → Result Thrown Fields
  unfolding get_prop set_prop get_table_index map_prop encode_condition encode_order
  encode_store_read wire = elim (get_prop (text "table_index") wire) [
    | some (str name) ↦ do
      ti ← get_table_index d name
      with_conditions ←
          map_prop (text "conditions") (encode_condition ti)
            (set_prop (text "table_index") (num (pos ti)) wire)
      with_or ← map_prop (text "orConditions") (encode_condition ti) with_conditions
      map_prop (text "orderBy") (encode_order ti) with_or
    | some null ↦ ok wire
    | some (bool b) ↦ ok wire
    | some (num n) ↦ ok wire
    | some (bytes bs) ↦ ok wire
    | some (arr vs) ↦ ok wire
    | some (obj fs) ↦ ok wire
    | none ↦ ok wire
  ]

  -- `encodeStoreMessage`
  unfoldable pub encode_store_message : MessageType → Fields → Result Thrown Fields
  unfolding encode_store_set_remove map_prop encode_batch_op encode_store_read
  encode_store_message store_set wire = encode_store_set_remove true wire
  encode_store_message store_remove wire = encode_store_set_remove false wire
  encode_store_message store_batch wire = map_prop (text "ops") encode_batch_op wire
  encode_store_message store_query wire = encode_store_read wire
  encode_store_message store_subscribe wire = encode_store_read wire
  encode_store_message store_load_more wire = encode_store_read wire
  encode_store_message _ wire = ok wire

  -- `wire.data`, where it is an object.
  unfoldable pub encode_data : (Fields → Result Thrown (List Value)) → Fields → Result Thrown Fields
  unfolding get_prop set_prop
  encode_data f wire = elim (get_prop (text "data") wire) [
    | some (obj fs) ↦ do vs ← f fs; ok (set_prop (text "data") (arr (from_items vs)) wire)
    | some null ↦ ok wire
    | some (bool b) ↦ ok wire
    | some (num n) ↦ ok wire
    | some (str s) ↦ ok wire
    | some (bytes bs) ↦ ok wire
    | some (arr vs) ↦ ok wire
    | none ↦ ok wire
  ]

  -- `encodePresenceMessage`, for data that is a plain object.
  unfoldable pub encode_presence_message : MessageType → Fields → Result Thrown Fields
  unfolding encode_data encode_presence_user_value encode_presence_shared_value
  encode_presence_message presence_set wire = encode_data (encode_presence_user_value d) wire
  encode_presence_message presence_set_shared wire =
      encode_data (encode_presence_shared_value d) wire
  encode_presence_message _ wire = ok wire

  -- The name of an action, which the type says is a text.
  abbrev pub name_of : Option Value → Text
  name_of (some (str s)) = s
  name_of _ = text "undefined"

  abbrev pub object_or_empty : Option Value → Fields
  object_or_empty (some (obj fs)) = fs
  object_or_empty _ = end

  unfoldable pub action_number : Value → Result Thrown Value
  unfolding get_action
  action_number (str name) = do action ← get_action d name; ok (num (pos action.id))
  action_number v = ok v

  -- `encodeActionMessage`
  unfoldable pub encode_action_message : MessageType → Fields → Result Thrown Fields
  unfolding get_prop set_prop get_action encode_action_params map_prop action_number
  encode_action_message action_call wire = do
    action ← get_action d (name_of (get_prop (text "action_id") wire))
    params ← encode_action_params action (object_or_empty (get_prop (text "params") wire))
    ok (
        set_prop (text "params") (arr (from_items params))
          (set_prop (text "action_id") (num (pos action.id)) wire))
  encode_action_message action_register wire = map_prop (text "action_ids") action_number wire
  encode_action_message _ wire = ok wire

  -- `encodeWireMessage`
  unfoldable pub encode_wire_message : MessageType → Fields → Result Thrown Fields
  unfolding family_of encode_store_message encode_presence_message encode_action_message
  encode_wire_message kind wire = elim (family_of kind) [
    | store_family ↦ encode_store_message kind wire
    | presence_family ↦ encode_presence_message kind wire
    | action_family ↦ encode_action_message kind wire
    | other_family ↦ ok wire
  ]

-- `mapSchemaEncodingError`
unfoldable pub map_schema_encoding_error : Thrown → ZyncBaseError
unfolding new_error
map_schema_encoding_error (zync e) = e
map_schema_encoding_error (schema_error table_not_found message) =
    new_error message collection_not_found validation false
map_schema_encoding_error (schema_error SchemaCode.field_not_found message) =
    new_error message ErrorCode.field_not_found validation false
map_schema_encoding_error t =
    new_error (message_or (text "Schema encoding failed") t) invalid_message validation false

-- What `encode` hands to MessagePack, and the context of the request.
pub record Encoded : Type 0 where
  pub wire : Fields
  pub context : Context

abbrev pub table_number : Option Value → Option ℤ
table_number (some (num n)) = some n
table_number _ = none

abbrev pub called_action : MessageType → Option Value → Option Text
called_action action_call (some (str s)) = some s
called_action _ _ = none

abbrev pub first_number : Option ℤ → Option ℤ → Option ℤ
first_number (some n) other = some n
first_number none other = other

-- `encode`, with the id among the properties.
unfoldable pub encode :
    SchemaDictionary → MessageType → Fields → Option ℤ → Result ZyncBaseError Encoded
unfolding get_prop set_prop encode_wire_message is_outbound wire_type map_schema_encoding_error
encode d kind body local_table_index =
    elim (do
      wire ← encode_wire_message d kind body
      if is_outbound kind
          then ok (set_prop (text "type") (num (pos (wire_type kind))) wire)
          else err (plain_error (text "Unregistered outbound message type"))) [
            | err t ↦ err (map_schema_encoding_error t)
            | ok wire ↦ ok (record {
              wire = wire;
              context = record {
                kind = kind;
                response_table_index =
                    first_number local_table_index
                      (table_number (get_prop (text "table_index") wire));
                action_name = called_action kind (get_prop (text "action_id") body);
              };
            })
          ]
