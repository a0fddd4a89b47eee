-- ===== src/Schema/Paths.antt =====
-- Lookups in a `SchemaDictionary`, and `encodePath` and `decodePath`.
use zyncbase.Schema.{SchemaDictionary, or_none, has_bit}
use zyncbase.Errors.{
  Thrown, zync, plain_error, schema_error, SchemaCode, table_not_found, field_not_found, ErrorCode,
}
use zyncbase.DocId.{pack_doc_id, unpack_doc_id}
use zyncbase.DocId.Caching.{no_caches}
use zyncbase.DocId.Short.{Bytes}
use zyncbase.Path.{join_field_path, split_field_path}
use zyncbase.Presence.Broadcast.{thrown_by}
use zyncbase.Prelude.Dict.{lookup}
use zyncbase.Prelude.Int.{ℤ, pos, negsuc}
use zyncbase.Prelude.Table.{find}
use zyncbase.Prelude.Result.{Result, ok, err, ◌>>=◌}
use zyncbase.Prelude.{ℕ, Bool, Option, none, some, List, [], ◌∷◌, ◌++◌, get_elem?}
use zyncbase.Prelude.Text.{Text, text}

abbrev pub or_throw : {A : Type 0} → Option A → Thrown → Result Thrown A
or_throw none t = err t
or_throw (some a) t = ok a

abbrev pub out_of_range : SchemaCode → Thrown
out_of_range code = schema_error code (text "SchemaDictionary: index out of range")

-- `xs[index]` where the code throws for an index below 0 or past the end.
abbrev pub at_wire_index : {A : Type 0} → List A → ℤ → Option A
at_wire_index xs (pos i) = get_elem? xs i
at_wire_index xs (negsuc i) = none

-- What `undefined.length` throws, where a table has no list of fields.
abbrev pub type_error : Thrown
type_error = plain_error (text "Cannot read properties of undefined")

-- `getTableIndex`
unfoldable pub get_table_index : SchemaDictionary → Text → Result Thrown ℕ
unfolding lookup
get_table_index d name = or_throw (lookup name d.table_to_index) (
    schema_error table_not_found (text "SchemaDictionary: unknown table \"" ++ (name ++ text "\"")))

-- `getFieldIndex`
unfoldable pub get_field_index : SchemaDictionary → ℕ → Text → Result Thrown ℕ
unfolding lookup find
get_field_index d table_index name = do
  field_map ←
      or_throw (find table_index d.field_to_index)
        (schema_error table_not_found (text "SchemaDictionary: unknown table index"))
  or_throw (lookup name field_map) (
      schema_error field_not_found
        (text "SchemaDictionary: unknown field \"" ++ (name ++ text "\" in table index")))

-- `getTableName`
unfoldable pub get_table_name : SchemaDictionary → ℤ → Result Thrown Text
get_table_name d index = or_throw (at_wire_index d.tables index) (out_of_range table_not_found)

-- `getFields`; past the lists of fields the result is `undefined`, which throws at its first use.
unfoldable pub get_fields : SchemaDictionary → ℤ → Result Thrown (List Text)
get_fields d index = do
  name ← or_throw (at_wire_index d.tables index) (out_of_range table_not_found)
  or_throw (at_wire_index d.fields index) type_error

-- `getFieldName`
unfoldable pub get_field_name : SchemaDictionary → ℤ → ℤ → Result Thrown Text
unfolding get_fields
get_field_name d table_index field_index = do
  names ← get_fields d table_index
  or_throw (at_wire_index names field_index) (out_of_range field_not_found)

-- `getFieldFlags`
unfoldable pub get_field_flags : SchemaDictionary → ℕ → ℕ → Result Thrown ℕ
get_field_flags d table_index field_index = do
  name ← or_throw (get_elem? d.tables table_index) (out_of_range table_not_found)
  or_throw (get_elem? (or_none (get_elem? d.field_flags table_index)) field_index)
      (out_of_range field_not_found)

-- `isDocIdField`, `isBytesField`, `isRequiredField` and `isSystemField`.
abbrev pub flag_of : ℕ → Result Thrown ℕ → Result Thrown Bool
flag_of w (ok flags) = ok (has_bit flags w)
flag_of w (err t) = err t

unfoldable pub is_doc_id_field : SchemaDictionary → ℕ → ℕ → Result Thrown Bool
unfolding get_field_flags
is_doc_id_field d ti fi = flag_of 2 (get_field_flags d ti fi)

unfoldable pub is_bytes_field : SchemaDictionary → ℕ → ℕ → Result Thrown Bool
unfolding get_field_flags
is_bytes_field d ti fi = flag_of 8 (get_field_flags d ti fi)

unfoldable pub is_required_field : SchemaDictionary → ℕ → ℕ → Result Thrown Bool
unfolding get_field_flags
is_required_field d ti fi = flag_of 4 (get_field_flags d ti fi)

unfoldable pub is_system_field : SchemaDictionary → ℕ → ℕ → Result Thrown Bool
unfolding get_field_flags
is_system_field d ti fi = flag_of 1 (get_field_flags d ti fi)

-- The document id of a wire path: packed, or a text as it is.
pub data DocRef : Type 0 where
  packed : Bytes → DocRef
  plain : Text → DocRef

-- A wire path by its length; what stands behind a field index is ignored.
pub data WirePath : Type 0 where
  nothing : WirePath
  table : ℤ → WirePath
  document : ℤ → DocRef → WirePath
  field_at : ℤ → DocRef → ℤ → WirePath

abbrev pub empty_path : Text → Thrown
empty_path message = schema_error SchemaCode.invalid_path message

-- `packDocId(id, INVALID_PATH)`
unfoldable pub pack_id : Text → Result Thrown Bytes
unfolding pack_doc_id
pack_id id = thrown_by zync (pack_doc_id id ErrorCode.invalid_path)

-- `encodePath`
unfoldable pub encode_path : SchemaDictionary → List Text → Result Thrown WirePath
encode_path d [] = err (empty_path (text "SchemaDictionary: empty path"))
encode_path d (name ∷ []) = do ti ← get_table_index d name; ok (table (pos ti))
encode_path d (name ∷ id ∷ []) = do
  ti ← get_table_index d name
  doc ← pack_id id
  ok (document (pos ti) (packed doc))
encode_path d (name ∷ id ∷ seg ∷ segs) = do
  ti ← get_table_index d name
  doc ← pack_id id
  fi ← get_field_index d ti (join_field_path (seg ∷ segs))
  ok (field_at (pos ti) (packed doc) (pos fi))

-- `rawDocId instanceof Uint8Array ? unpackDocId(rawDocId) : String(rawDocId)`
unfoldable pub decode_doc_ref : DocRef → Result Thrown Text
unfolding unpack_doc_id
decode_doc_ref (packed bs) = thrown_by zync (unpack_doc_id no_caches bs).0
decode_doc_ref (plain id) = ok id

-- `decodePath`
unfoldable pub decode_path : SchemaDictionary → WirePath → Result Thrown (List Text)
decode_path d nothing = err (empty_path (text "SchemaDictionary: empty wire path"))
decode_path d (table ti) = do name ← get_table_name d ti; ok (name ∷ [])
decode_path d (document ti doc) = do
  name ← get_table_name d ti
  id ← decode_doc_ref doc
  ok (name ∷ id ∷ [])
decode_path d (field_at ti doc fi) = do
  name ← get_table_name d ti
  id ← decode_doc_ref doc
  flat ← get_field_name d ti fi
  ok (name ∷ id ∷ split_field_path flat)
