-- ===== src/Tests/Dictionary.antt =====
-- Runs of schema_dictionary.ts of sdk/typescript/src, and its theorems at a small schema.
use zyncbase.Radix.{of_digits}
use zyncbase.Prelude.Result.{ok}
use zyncbase.Schema.{SchemaSync, SchemaDictionary, new_dictionary}
use zyncbase.Schema.Build.{process_schema_sync}
use zyncbase.Schema.Invariant.{IsConsistent, process_schema_sync-IsConsistent}
use zyncbase.Schema.Paths.{
  get_field_index, pack_id, get_table_index, WirePath, field_at, packed, encode_path, decode_path,
}
use zyncbase.Schema.PathLaws.{decode_path-encode_path}
use zyncbase.Schema.Sparse.{encode_presence_user_value, decode_presence_user_value}
use zyncbase.Schema.SparseLaws.{decode-encode_presence_user_value}
use zyncbase.Schema.Records.{encode_field_value, decode_field_value, decode_record}
use zyncbase.Schema.RecordLaws.{decode_field_value-encode_field_value}
use zyncbase.Json.{Value, num, str, bytes, obj, Fields, end, field}
use zyncbase.Path.{join_field_path, flatten, unflatten}
use zyncbase.Prelude.Int.{pos}
use zyncbase.Prelude.{ℕ, ◌≡◌, refl, false, some, none, List, [], ◌∷◌}
use zyncbase.Prelude.Text.{text_eq, Text, text}

-- One table with a text, a nested number and a document id.
abbrev sync : SchemaSync
sync = record {
  tables = text "users" ∷ [];
  fields = (text "name" ∷ text "address__zip" ∷ text "owner" ∷ []) ∷ [];
  field_flags = (0 ∷ 0 ∷ 2 ∷ []) ∷ [];
  presence_user_fields = some (text "cursor__x" ∷ text "cursor__y" ∷ []);
  presence_shared_fields = none;
  actions = none;
  action_params = none;
  action_returns = none;
  action_flags = none;
}

abbrev digest : SchemaSync → ℕ
digest p = 7

abbrev dictionary : SchemaDictionary
dictionary = (process_schema_sync digest sync new_dictionary).0

abbrev zip : List Text
zip = text "users" ∷ text "abc" ∷ text "address" ∷ text "zip" ∷ []

abbrev cursor : Fields
cursor =
    field (text "cursor")
      (obj (field (text "x") (num (pos 1)) (field (text "y") (num (pos 2)) end))) end

process_test : (process_schema_sync digest sync new_dictionary).1 ≡ ok false
unfolding process_schema_sync
process_test = refl

process_schema_sync-IsConsistent_example : IsConsistent dictionary
process_schema_sync-IsConsistent_example =
    process_schema_sync-IsConsistent digest sync new_dictionary false process_test

-- The packed id "abc".
abbrev id_bytes : List ℕ
id_bytes = 39 ∷ 136 ∷ 235 ∷ 225 ∷ 88 ∷ 106 ∷ 22 ∷ 198 ∷ 20 ∷ 98 ∷ 4 ∷ 101 ∷ 24 ∷ 182 ∷ 18 ∷ 130 ∷ []

abbrev zip_wire : WirePath
zip_wire = field_at (pos 0) (packed id_bytes) (pos 1)

encode_test : encode_path dictionary zip ≡ ok zip_wire
unfolding encode_path process_schema_sync get_table_index text_eq pack_id get_field_index
    join_field_path
encode_test = refl

decode_path-encode_path_example : decode_path dictionary zip_wire ≡ ok zip
unfolding encode_path process_schema_sync get_table_index text_eq pack_id get_field_index
    join_field_path
decode_path-encode_path_example =
    decode_path-encode_path dictionary process_schema_sync-IsConsistent_example zip zip_wire refl

abbrev cursor_wire : List Value
cursor_wire = num (pos 0) ∷ num (pos 1) ∷ num (pos 1) ∷ num (pos 2) ∷ []

decode-encode_presence_user_value_example :
    decode_presence_user_value dictionary cursor_wire ≡ ok (unflatten (flatten cursor []))
unfolding encode_presence_user_value process_schema_sync text_eq
decode-encode_presence_user_value_example =
    decode-encode_presence_user_value dictionary cursor cursor_wire
      process_schema_sync-IsConsistent_example refl

decode_field_value-encode_field_value_example :
    decode_field_value dictionary 0 2 (bytes id_bytes) ≡ ok (str (text "abc"))
unfolding encode_field_value process_schema_sync
decode_field_value-encode_field_value_example =
    decode_field_value-encode_field_value dictionary 0 2 (str (text "abc")) (bytes id_bytes) tt refl

decode_record_test :
    decode_record dictionary 0 (str (text "Ann") ∷ num (pos 9) ∷ bytes id_bytes ∷ [])
    ≡ ok (
        field (text "name") (str (text "Ann")) (
          field
            (text "address")
            (obj (field (text "zip") (num (pos 9)) end))
            (field (text "owner") (str (text "abc")) end)))
unfolding decode_record process_schema_sync of_digits text_eq
decode_record_test = refl
