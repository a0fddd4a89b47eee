-- ===== src/Schema/Records.antt =====
-- Values and records on the wire: `encodeFieldValue`, `encodeValue`, `decodeFieldValue` and
-- `decodeRecord` of schema_dictionary.ts.
use zyncbase.Schema.{SchemaDictionary, or_none, has_bit}
use zyncbase.Schema.Paths.{get_field_index, get_fields, get_field_flags, is_doc_id_field}
use zyncbase.Schema.Sparse.{place}
use zyncbase.DocId.{pack_doc_id, unpack_doc_id}
use zyncbase.DocId.Caching.{no_caches}
use zyncbase.Errors.{Thrown, ErrorCode, zync, plain_error}
use zyncbase.Json.{Value, num, str, bytes, arr, Items, nil, cons, Fields, end, field}
use zyncbase.Presence.Broadcast.{thrown_by}
use zyncbase.Prelude.Int.{pos}
use zyncbase.Prelude.Result.{Result, ok, err, ◌>>=◌}
use zyncbase.Prelude.{ℕ, Option, List, [], ◌∷◌, ◌==◌, if◌then◌else◌, length, get_elem?}
use zyncbase.Prelude.Text.{Text, text}

-- A text becomes the bytes of its packed id.
unfoldable pub pack_value : Value → Result Thrown Value
unfolding pack_doc_id
pack_value (str id) = do
  packed ← thrown_by zync (pack_doc_id id ErrorCode.invalid_message)
  ok (bytes packed)
pack_value v = ok v

unfoldable pub pack_items : Items → Result Thrown Items
unfolding pack_value
pack_items nil = ok nil
pack_items (cons v vs) = do w ← pack_value v; ws ← pack_items vs; ok (cons w ws)

-- `encodeFieldValue` for a field of document ids.
unfoldable pub pack_field : Value → Result Thrown Value
unfolding pack_value pack_items
pack_field (arr vs) = do ws ← pack_items vs; ok (arr ws)
pack_field v = pack_value v

-- `encodeFieldValue`
unfoldable pub encode_field_value : SchemaDictionary → ℕ → ℕ → Value → Result Thrown Value
unfolding is_doc_id_field pack_field
encode_field_value d table_index field_index v = do
  doc_id ← is_doc_id_field d table_index field_index
  if doc_id then pack_field v else ok v

-- `encodeValue`: `Object.entries` in the order of the properties.
unfoldable pub encode_value : SchemaDictionary → ℕ → Fields → Result Thrown (List Value)
unfolding get_field_index encode_field_value
encode_value d table_index end = ok []
encode_value d table_index (field key v fs) = do
  field_index ← get_field_index d table_index key
  w ← encode_field_value d table_index field_index v
  rest ← encode_value d table_index fs
  ok (num (pos field_index) ∷ w ∷ rest)

-- Bytes become the text of the id that they pack.
unfoldable pub unpack_value : Value → Result Thrown Value
unfolding unpack_doc_id
unpack_value (bytes bs) = do id ← thrown_by zync (unpack_doc_id no_caches bs).0; ok (str id)
unpack_value v = ok v

unfoldable pub unpack_items : Items → Result Thrown Items
unfolding unpack_value
unpack_items nil = ok nil
unpack_items (cons v vs) = do w ← unpack_value v; ws ← unpack_items vs; ok (cons w ws)

unfoldable pub unpack_field : Value → Result Thrown Value
unfolding unpack_value unpack_items
unpack_field (arr vs) = do ws ← unpack_items vs; ok (arr ws)
unpack_field v = unpack_value v

-- `decodeFieldValueWithFlags`
unfoldable pub decode_field_value_with_flags : ℕ → Value → Result Thrown Value
unfolding unpack_field
decode_field_value_with_flags flags v = if has_bit flags 2 then unpack_field v else ok v

-- `decodeFieldValue`
unfoldable pub decode_field_value : SchemaDictionary → ℕ → ℕ → Value → Result Thrown Value
unfolding get_field_flags decode_field_value_with_flags
decode_field_value d table_index field_index v = do
  flags ← get_field_flags d table_index field_index
  decode_field_value_with_flags flags v

-- The loop of `decodeRecord`, over the names, flags, paths and values of the fields.
unfoldable pub decode_columns :
    List Text → List ℕ → List (Option (List Text)) → List Value → Fields → Result Thrown Fields
unfolding decode_field_value_with_flags place
decode_columns (name ∷ names) (flags ∷ fs) (path ∷ paths) (v ∷ vs) result = do
  w ← decode_field_value_with_flags flags v
  decode_columns names fs paths vs (place path name w result)
decode_columns _ _ _ _ result = ok result

-- `decodeRecord`
unfoldable pub decode_record : SchemaDictionary → ℕ → List Value → Result Thrown Fields
unfolding get_fields decode_columns
decode_record d table_index wire = do
  names ← get_fields d (pos table_index)
  if length wire == length names
      then decode_columns names (or_none (get_elem? d.field_flags table_index))
          (or_none (get_elem? d.field_paths table_index)) wire end
      else err (
          plain_error (
            text
              "SchemaDictionary: record field count does not match schema field count for table index"))
