-- ===== src/Tests/Filters.antt =====
-- Runs of the requests of store_wire.ts, and its theorems at concrete inputs.
use zyncbase.StoreWire.{path_of}
use zyncbase.StoreWire.Where.{encode_condition_object, Filter, is_null_test}
use zyncbase.StoreWire.Sort.{
  encode_order_by, WireOrder, has_valid_count, encode_clause_fields, direction, check_unique,
  is_unique_field,
}
use zyncbase.StoreWire.SortLaws.{encode_order_by_iff, IsOrder}
use zyncbase.StoreWire.SortViews.{sort_entries-encode_order_by, read_clauses, wire_entries}
use zyncbase.StoreWire.Writes.{build_set, BatchOperation, set_op, remove_op, build_batch}
use zyncbase.StoreWire.BatchLaws.{build_batch_iff, IsBatch}
use zyncbase.StoreWire.Nesting.{build_set-nest, nest}
use zyncbase.Compare.Collection.{sort_entries}
use zyncbase.Path.{segments, dotted}
use zyncbase.Json.{Value, Items, Fields, obj, bool, num, field, end, str, arr, cons, nil}
use zyncbase.Prelude.{◌≡◌, refl, ◌↔◌, [], ◌∷◌, List, true, false, none, some, Bool}
use zyncbase.Prelude.Int.{pos}
use zyncbase.Prelude.Result.{ok}
use zyncbase.Prelude.Text.{Text, text, text_eq}

-- `isNull: false` asks for the same as `isNull: true`.
is_null_false :
    encode_condition_object
      (field (text "avatar") (obj (field (text "isNull") (bool false) end)) end)
      []
    ≡ record { key = text "avatar"; op = 11; operand = none } ∷ []
unfolding encode_condition_object is_null_test
is_null_false = refl

abbrev by_city : Items
by_city =
    cons (obj (field (text "address.city") (str (text "desc")) end))
      (cons (obj (field (text "id") (str (text "asc")) end)) nil)

abbrev by_city_wire : List WireOrder
by_city_wire =
    record { key = text "address__city"; desc = true }
    ∷ record { key = text "id"; desc = false }
    ∷ []

order_test : encode_order_by (arr by_city) ≡ ok by_city_wire
unfolding encode_order_by has_valid_count encode_clause_fields direction check_unique
    is_unique_field
order_test = refl

encode_order_by_iff_example :
    (encode_order_by (arr by_city) ≡ ok by_city_wire) ↔ IsOrder (arr by_city) by_city_wire
encode_order_by_iff_example = encode_order_by_iff (arr by_city) by_city_wire

sort_entries-encode_order_by_example :
    sort_entries (λ name. ok false) (read_clauses by_city)
    ≡ wire_entries (λ name. ok false) by_city_wire
sort_entries-encode_order_by_example =
    sort_entries-encode_order_by (λ name. ok false) by_city by_city_wire order_test

-- `age >= 18 AND (role = "admin" OR role = "editor")`
abbrev adults : Fields
adults = field (text "age") (obj (field (text "gte") (num (pos 18)) end)) (
    field (text "or")
      (arr (
        cons (obj (field (text "role") (str (text "admin")) end))
          (cons (obj (field (text "role") (str (text "editor")) end)) nil)))
      end)

abbrev adults_filter : Filter
adults_filter = record {
  conditions = record { key = text "age"; op = 4; operand = some (num (pos 18)) } ∷ [];
  or_conditions =
      record { key = text "role"; op = 0; operand = some (str (text "admin")) }
      ∷ record { key = text "role"; op = 0; operand = some (str (text "editor")) }
      ∷ [];
}

abbrev on_age : Text → Text → Value → Bool
on_age key op v = text_eq key (text "age")

abbrev never : Text → Bool
never key = false

build_set-nest_example :
    build_set
      (segments (text "users" ∷ text "u1" ∷ text "address" ∷ text "city" ∷ []))
      (str (text "Rome"))
      none
      (text "-")
    ≡ build_set
        (segments (text "users" ∷ text "u1" ∷ []))
        (obj (nest (text "address") (text "city" ∷ []) (str (text "Rome"))))
        none
        (text "-")
build_set-nest_example =
    build_set-nest (text "users") (text "u1") (text "address") (text "city" ∷ [])
      (str (text "Rome")) none (text "-") refl

abbrev two_ops : List BatchOperation
two_ops =
    set_op (dotted (text "users.u1.name")) (some (str (text "Ann")))
    ∷ remove_op (dotted (text "users.u2"))
    ∷ []

abbrev two_ops_message : Fields
two_ops_message =
    field (text "ops")
      (arr (
        cons
          (arr (
            cons (str (text "s")) (
              cons (path_of (text "users" ∷ text "u1" ∷ []))
                (cons (obj (field (text "name") (str (text "Ann")) end)) nil))))
          (cons (arr (cons (str (text "r")) (cons (path_of (text "users" ∷ text "u2" ∷ [])) nil)))
            nil)))
      end

batch_test : build_batch two_ops none [] ≡ ok two_ops_message
unfolding build_batch
batch_test = refl

build_batch_iff_example :
    (build_batch two_ops none [] ≡ ok two_ops_message) ↔ IsBatch two_ops none [] two_ops_message
build_batch_iff_example = build_batch_iff two_ops none [] two_ops_message
