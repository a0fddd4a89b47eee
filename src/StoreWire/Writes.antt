-- ===== src/StoreWire/Writes.antt =====
-- The writes of store_wire.ts: `buildSet`, `buildRemove`, `buildCreate` and `buildBatch`. The UUID
-- that becomes the write id is an argument. The operations of a batch are written in the type of the
-- source, so another `op` than "set" and "remove" cannot occur.
use zyncbase.StoreWire.{StoreCommand, Confirm, path_of, client_error, confirm_fields}
use zyncbase.Prelude.{◌∷◌, [], List, Option, none, some, ℕ, ltb, length, if◌then◌else◌}
use zyncbase.Prelude.Text.{Text, text}
use zyncbase.Prelude.Result.{Result, ok, err, ◌>>=◌}
use zyncbase.Json.{Value, null, obj, str, arr, Items, nil, cons, Fields, end, field}
use zyncbase.Errors.{ZyncBaseError, invalid_path, batch_too_large}
use zyncbase.Path.{Address, normalize_path, join_field_path, flatten}
use zyncbase.Wire.{store_set, store_remove}

-- `encodeWriteValue`, with its `isObjectRecord`.
unfoldable pub encode_write_value : Value → Value
unfolding flatten
encode_write_value (obj fs) = obj (flatten fs [])
encode_write_value v = v

-- `segments.length >= 3 ? { [joinFieldPath(...segments.slice(2))]: value } : value`
unfoldable pub wire_value : List Text → Value → Value
unfolding join_field_path
wire_value [] v = v
wire_value (p ∷ ps) v = obj (field (join_field_path (p ∷ ps)) v end)

-- The message of a write to a document, with `confirm` and `writeId`.
unfoldable pub set_message : List Text → Value → Fields → Fields
unfolding encode_write_value
set_message path v more =
    field (text "path") (path_of path) (field (text "value") (encode_write_value v) more)

unfoldable pub set_command : List Text → Value → Option Confirm → Text → StoreCommand
unfolding confirm_fields
set_command path v confirm uuid = record {
  segments = path;
  message_type = store_set;
  message = set_message path v (confirm_fields confirm uuid);
}

-- What `buildSet` does with the segments of a valid path.
unfoldable pub set_at :
    Value → Option Confirm → Text → List Text → Result ZyncBaseError StoreCommand
unfolding wire_value
set_at v confirm uuid (collection ∷ id ∷ ps) =
    ok (set_command (collection ∷ id ∷ []) (wire_value ps v) confirm uuid)
set_at v confirm uuid ss =
    err (client_error (text "store.set requires a path of depth 2 or more") invalid_path)

-- `buildSet`
unfoldable pub build_set :
    Address → Value → Option Confirm → Text → Result ZyncBaseError StoreCommand
unfolding normalize_path set_at
build_set path v confirm uuid = normalize_path path >>= set_at v confirm uuid

abbrev pub remove_depth : ZyncBaseError
remove_depth =
    client_error (text "store.remove requires a path of depth 2 (collection + document id)")
      invalid_path

unfoldable pub remove_at : Option Confirm → Text → List Text → Result ZyncBaseError StoreCommand
unfolding confirm_fields
remove_at confirm uuid (collection ∷ id ∷ []) = ok (record {
  segments = collection ∷ id ∷ [];
  message_type = store_remove;
  message = field (text "path") (path_of (collection ∷ id ∷ [])) (confirm_fields confirm uuid);
})
remove_at confirm uuid ss = err remove_depth

-- `buildRemove`
unfoldable pub build_remove : Address → Option Confirm → Text → Result ZyncBaseError StoreCommand
unfolding normalize_path remove_at
build_remove path confirm uuid = normalize_path path >>= remove_at confirm uuid

-- `buildCreate`
unfoldable pub build_create : Text → Value → Text → Option Confirm → Text → StoreCommand
build_create collection v id confirm uuid = set_command (collection ∷ id ∷ []) v confirm uuid

-- `BatchOperation`; a set may lack its value.
pub data BatchOperation : Type 0 where
  set_op : Address → Option Value → BatchOperation
  remove_op : Address → BatchOperation

abbrev pub or_null : Option Value → Value
or_null none = null
or_null (some v) = v

abbrev pub batch_depth : ZyncBaseError
batch_depth = client_error (text "Batch operation path requires depth 2 or more") invalid_path

unfoldable pub batch_set_at : Option Value → List Text → Result ZyncBaseError Value
unfolding wire_value encode_write_value
batch_set_at v (collection ∷ id ∷ ps) = ok (
    arr (
      cons (str (text "s")) (
        cons (path_of (collection ∷ id ∷ []))
          (cons (encode_write_value (wire_value ps (or_null v))) nil))))
batch_set_at v ss = err batch_depth

unfoldable pub batch_remove_at : List Text → Result ZyncBaseError Value
batch_remove_at (collection ∷ id ∷ []) =
    ok (arr (cons (str (text "r")) (cons (path_of (collection ∷ id ∷ [])) nil)))
batch_remove_at (collection ∷ id ∷ p ∷ ps) = err remove_depth
batch_remove_at ss = err batch_depth

-- `buildBatchOp`
unfoldable pub build_batch_op : BatchOperation → Result ZyncBaseError Value
unfolding normalize_path batch_set_at batch_remove_at
build_batch_op (set_op path v) = normalize_path path >>= batch_set_at v
build_batch_op (remove_op path) = normalize_path path >>= batch_remove_at

-- The loop of `buildBatch`.
unfoldable pub build_ops : List BatchOperation → Result ZyncBaseError Items
unfolding build_batch_op
build_ops [] = ok nil
build_ops (op ∷ ops) = do o ← build_batch_op op; rest ← build_ops ops; ok (cons o rest)

abbrev pub max_batch : ℕ
max_batch = 500

-- `buildBatch`: the properties of the message.
unfoldable pub build_batch :
    List BatchOperation → Option Confirm → Text → Result ZyncBaseError Fields
unfolding build_ops confirm_fields
build_batch ops confirm uuid =
    if ltb max_batch (length ops)
    then err (client_error (text "Batch exceeds maximum of 500 operations") batch_too_large)
    else (do
      encoded ← build_ops ops
      ok (field (text "ops") (arr encoded) (confirm_fields confirm uuid)))
