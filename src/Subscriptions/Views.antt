-- ===== src/Subscriptions/Views.antt =====
-- The materialized views of subscriptions.ts: the records of a query by their ids, with the order of
-- its snapshots. `sort` stands for `Array.prototype.sort`: stable, by the comparator.
use zyncbase.Json.{Value, arr, from_items}
use zyncbase.Prelude.Int.{ℤ, pos, negsuc}
use zyncbase.Prelude.Dict.{Dict, insert, delete, lookup}
use zyncbase.Prelude.{Bool, true, ◌||◌, List, [], ◌∷◌, ◌==◌, if◌then◌else◌, is_some}
use zyncbase.Prelude.Text.{Text}

-- One op of a `StoreDelta`.
pub data Op : Type 0 where
  set_op : List Text → Value → Op
  remove_op : List Text → Op

pub record MaterializedView : Type 0 where
  pub records : Dict Value
  pub comparator : Value → Value → ℤ

-- `op.path[1]`; the server sends no path without an id.
abbrev pub id_of : List Text → Text
id_of (collection ∷ id ∷ path) = id
id_of _ = []

-- `_applyOpsToView`, with its flag `changed`.
unfoldable pub apply_ops_to_view : List Op → Bool → Dict Value → Dict Value × Bool
unfolding insert delete lookup
apply_ops_to_view [] changed rs = (rs, changed)
apply_ops_to_view (set_op path v ∷ ops) changed rs =
    apply_ops_to_view ops true (insert (id_of path) v rs)
apply_ops_to_view (remove_op path ∷ ops) changed rs =
    apply_ops_to_view ops (is_some (lookup (id_of path) rs) || changed) (delete (id_of path) rs)

-- `comparator(a, b) <= 0`
abbrev pub is_at_most_zero : ℤ → Bool
is_at_most_zero (pos n) = n == 0
is_at_most_zero (negsuc n) = true

unfoldable pub insert_sorted : (Value → Value → ℤ) → Value → List Value → List Value
insert_sorted compare v [] = v ∷ []
insert_sorted compare v (w ∷ ws) =
    let behind = w ∷ insert_sorted compare v ws in
    if is_at_most_zero (compare v w) then v ∷ w ∷ ws else behind

unfoldable pub sort : (Value → Value → ℤ) → List Value → List Value
unfolding insert_sorted
sort compare [] = []
sort compare (v ∷ vs) = insert_sorted compare v (sort compare vs)

-- `Array.from(records.values())`
unfoldable pub values : Dict Value → List Value
values [] = []
values ((k, v) ∷ rs) = v ∷ values rs

-- `_snapshotView`
unfoldable pub snapshot_view : MaterializedView → Value
unfolding sort values from_items
snapshot_view view = arr (from_items (sort view.comparator (values view.records)))
