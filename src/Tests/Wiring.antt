-- ===== src/Tests/Wiring.antt =====
-- Runs of connection_wire.ts of sdk/typescript/src, and its theorems at a small schema.
use zyncbase.StoreWire.Writes
use zyncbase.StoreWire.WriteLaws.{confirmation, encode_batch_op-build_set}
use zyncbase.StoreWire.{committed, StoreCommand}
use zyncbase.Json.{
  Fields, items, from_items, Value, num, str, bytes, arr, obj, nil, cons, end, field,
}
use zyncbase.Radix.{of_digits}
use zyncbase.Prelude.Int.{pos}
use zyncbase.Prelude.Result.{ok}
use zyncbase.Schema.{SchemaSync, SchemaDictionary, new_dictionary}
use zyncbase.Schema.Build.{process_schema_sync}
use zyncbase.Schema.Paths.{decode_doc_ref, pack_id, get_table_index, get_table_name}
use zyncbase.Subscriptions.Tracker.{StoreDelta}
use zyncbase.Subscriptions.Views.{Op, set_op}
use zyncbase.Wire.Decode.{decode_store_delta}
use zyncbase.Wire.Encode.{encode_store_set_remove, encode_batch_op}
use zyncbase.StoreWire.Writes.{build_set, build_batch_op}
use zyncbase.Path.{Address, dotted}
use zyncbase.Wire.{store_set}
use zyncbase.Wire.Laws.{
  set_with, set_request, batch_set, encode_batch_op-set, IsAbout, decode_store_delta-IsAbout,
}
use zyncbase.Prelude.{ℕ, ◌≡◌, refl, true, none, some, List, [], ◌∷◌}
use zyncbase.Prelude.Text.{text_eq, Text, text}

abbrev sync : SchemaSync
sync = record {
  tables = text "users" ∷ [];
  fields = (text "id" ∷ text "age" ∷ []) ∷ [];
  field_flags = (3 ∷ 0 ∷ []) ∷ [];
  presence_user_fields = none;
  presence_shared_fields = none;
  actions = none;
  action_params = none;
  action_returns = none;
  action_flags = none;
}

abbrev dictionary : SchemaDictionary
dictionary = (process_schema_sync (λ p. 7) sync new_dictionary).0

-- The packed id "abc".
abbrev id_bytes : List ℕ
id_bytes = 39 ∷ 136 ∷ 235 ∷ 225 ∷ 88 ∷ 106 ∷ 22 ∷ 198 ∷ 20 ∷ 98 ∷ 4 ∷ 101 ∷ 24 ∷ 182 ∷ 18 ∷ 130 ∷ []

abbrev ann : Value
ann = arr (cons (str (text "users")) (cons (str (text "abc")) nil))

abbrev ann_wire : Value
ann_wire = arr (cons (num (pos 0)) (cons (bytes id_bytes) nil))

abbrev aged : Value
aged = obj (field (text "age") (num (pos 41)) end)

abbrev aged_wire : Value
aged_wire = arr (cons (num (pos 1)) (cons (num (pos 41)) nil))

encode_test :
    encode_store_set_remove dictionary true (set_request ann aged)
    ≡ ok (set_request ann_wire aged_wire)
unfolding encode_store_set_remove process_schema_sync text_eq get_table_index pack_id from_items
encode_test = refl

encode_batch_op-set_example :
    (q : Value) × (w : Value) × (set_request ann_wire aged_wire ≡ set_request q w)
    × (encode_batch_op dictionary (batch_set ann aged) ≡ ok (batch_set q w))
encode_batch_op-set_example =
    encode_batch_op-set dictionary ann aged (set_request ann_wire aged_wire) encode_test

abbrev ann_path : Address
ann_path = dotted (text "users.abc")

abbrev aged_command : StoreCommand
aged_command = record {
  segments = text "users" ∷ text "abc" ∷ [];
  message_type = store_set;
  message = set_request ann aged;
}

build_test : build_set ann_path aged none (text "-") ≡ ok aged_command
unfolding build_set Writes.set_command Writes.set_message
build_test = refl

abbrev id_fields : Fields
id_fields =
    field (text "confirm") (str (text "committed")) (field (text "writeId") (str (text "ab")) end)

abbrev confirmed_command : StoreCommand
confirmed_command = record aged_command { message = set_with ann aged id_fields }

abbrev aged_message : Fields
aged_message = set_with ann_wire aged_wire id_fields

confirm_test : build_set ann_path aged (some committed) (text "a-b") ≡ ok confirmed_command
unfolding build_set Writes.set_command Writes.set_message
confirm_test = refl

confirmed_encode_test :
    encode_store_set_remove dictionary true confirmed_command.message ≡ ok aged_message
unfolding encode_store_set_remove process_schema_sync text_eq get_table_index pack_id from_items
confirmed_encode_test = refl

encode_batch_op-build_set_example :
    (o : Value) × (q : Value) × (w : Value) × (build_batch_op (Writes.set_op ann_path (some aged))
      ≡ ok o)
    × (aged_message ≡ set_with q w (confirmation (some committed) (text "a-b")))
    × (encode_batch_op dictionary o ≡ ok (batch_set q w))
encode_batch_op-build_set_example =
    encode_batch_op-build_set dictionary ann_path aged (some committed) (text "a-b")
      confirmed_command aged_message confirm_test confirmed_encode_test

abbrev row : Value
row = arr (cons (bytes id_bytes) (cons (num (pos 41)) nil))

abbrev delta : StoreDelta
delta = record {
  sub_id = 5;
  ops =
      set_op (text "users" ∷ text "abc" ∷ [])
        (obj (field (text "id") (str (text "abc")) (field (text "age") (num (pos 41)) end)))
      ∷ [];
}

decode_test :
    decode_store_delta dictionary (num (pos 5) ∷ num (pos 0) ∷ num (pos 0) ∷ row ∷ []) ≡ some delta
unfolding decode_store_delta process_schema_sync items of_digits text_eq get_table_name
    decode_doc_ref
decode_test = refl

-- A delta with an element too many is dropped.
long_test :
    decode_store_delta dictionary (num (pos 5) ∷ num (pos 0) ∷ num (pos 0) ∷ row ∷ row ∷ []) ≡ none
unfolding decode_store_delta
long_test = refl

decode_store_delta-IsAbout_example :
    (sub : ℕ) × (ti : ℕ) × (name : Text) × (op : Op) × (num (pos 5) ≡ num (pos sub))
    × (num (pos 0) ≡ num (pos ti))
    × (get_table_name dictionary (pos ti) ≡ ok name)
    × (delta ≡ record { sub_id = sub; ops = op ∷ [] })
    × IsAbout name op
decode_store_delta-IsAbout_example =
    decode_store_delta-IsAbout dictionary (num (pos 5)) (num (pos 0)) (num (pos 0)) row delta
      decode_test
