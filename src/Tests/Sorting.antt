-- ===== src/Tests/Sorting.antt =====
-- Runs of the comparators of store.ts and doc_id.ts of sdk/typescript/src and of initial snapshots,
-- and their theorems at concrete inputs.
use zyncbase.Compare.{
  compare_text, compare_utf8, compare_utf8_bytes, compare_doc_ids, compare_records,
}
use zyncbase.Compare.PackedOrder.{compare_doc_ids-pack_doc_id}
use zyncbase.DocId.{pack_doc_id}
use zyncbase.DocId.Uuid.{encode_uuid}
use zyncbase.Errors.{invalid_message}
use zyncbase.DocId.Short.{encode_short}
use zyncbase.Compare.Utf8.{compare_utf8-bytes}
use zyncbase.Schema.{SchemaDictionary, new_dictionary}
use zyncbase.Prelude.Result.{ok}
use zyncbase.Prelude.Int.{ℤ, pos, negsuc}
use zyncbase.Compare.Collection.{
  OrderClause, build_collection_comparator, IsOrdered, snapshot_view-IsOrdered,
}
use zyncbase.Json.{Value, num, str, arr, obj, Items, nil, cons, end, field, from_items}
use zyncbase.Subscriptions.Views.{MaterializedView, values, snapshot_view}
use mathlib.Core.List.{Perm}
use zyncbase.Prelude.{ℕ, ◌≡◌, refl, true, false, some, List, [], ◌∷◌}
use zyncbase.Prelude.Text.{Text, text, text_eq}

-- A text of the fast path and one that is not on it.
compare_utf8-bytes_example :
    compare_utf8 (233 ∷ []) (8364 ∷ []) ≡ compare_utf8_bytes (233 ∷ []) (8364 ∷ [])
compare_utf8-bytes_example = compare_utf8-bytes (233 ∷ []) (8364 ∷ [])

short_first_test :
    compare_doc_ids (text "b") (text "01890000-0000-7000-8000-000000000000") ≡ negsuc 0
unfolding compare_doc_ids
short_first_test = refl

abbrev task : Text → ℕ → Value
task id rank = obj (field (text "id") (str id) (field (text "rank") (num (pos rank)) end))

abbrev by_rank : List OrderClause
by_rank = record { key = some (text "rank"); desc = true } ∷ []

-- A schema with one table and one field.
abbrev schema : SchemaDictionary
schema = record new_dictionary {
  tables = text "tasks" ∷ [];
  field_flags = (0 ∷ []) ∷ [];
  table_to_index = (text "tasks", 0) ∷ [];
  field_to_index = (0, (text "rank", 0) ∷ []) ∷ [];
}

-- The comparator of `by_rank`.
abbrev rank_first : Value → Value → ℤ
rank_first = compare_records (
    record { parts = text "rank" ∷ []; desc = true; doc_id = false }
    ∷ record { parts = text "created_at" ∷ []; desc = false; doc_id = false }
    ∷ [])

built_test : build_collection_comparator schema (text "tasks") by_rank ≡ ok rank_first
unfolding build_collection_comparator text_eq
built_test = refl

descending_test : rank_first (task (text "x") 1) (task (text "y") 2) ≡ pos 1
unfolding compare_records text_eq
descending_test = refl

abbrev view : MaterializedView
view = record {
  records = (text "x", task (text "x") 1) ∷ (text "y", task (text "y") 2) ∷ [];
  comparator = rank_first;
}

snapshot_view-IsOrdered_example :
    (vs : List Value) × (snapshot_view view ≡ arr (from_items vs))
    × Perm (values view.records) vs
    × IsOrdered rank_first vs
snapshot_view-IsOrdered_example =
    snapshot_view-IsOrdered schema (text "tasks") by_rank rank_first view built_test refl

abbrev rows : Items
rows = cons (task (text "x") 1) (cons (num (pos 3)) (cons (task (text "x") 2) nil))

-- A short id and a UUID.
abbrev uuid : Text
uuid = text "01890000-0000-7000-8000-000000000000"

compare_doc_ids-pack_doc_id_example :
    compare_doc_ids (text "b") uuid ≡ compare_text (encode_short (text "b")) (encode_uuid uuid)
unfolding pack_doc_id
compare_doc_ids-pack_doc_id_example =
    compare_doc_ids-pack_doc_id (text "b") uuid invalid_message (encode_short (text "b"))
      (encode_uuid uuid) refl refl
