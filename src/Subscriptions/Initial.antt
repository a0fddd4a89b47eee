-- ===== src/Subscriptions/Initial.antt =====
-- Initial snapshots in subscriptions.ts: `createInitialSnapshotDelta` and `dispatchInitialSnapshot`.
-- An `id` of a record that is no text counts as missing.
use zyncbase.Json.{Value, str, bytes, arr, obj, Items, nil, cons, get_prop}
use zyncbase.Subscriptions.Views.{Op, set_op, apply_ops_to_view}
use zyncbase.Subscriptions.Tracker.{StoreDelta, Tracker, dispatch}
use zyncbase.Subscriptions.Batching.{last_write, lookup-apply_ops_to_view}
use zyncbase.Prelude.Dict.{Dict, lookup}
use zyncbase.Prelude.{
  ℕ, ◌≡◌, refl, ◌∙◌, ◌≢◌, Bool, true, false, Option, some, List, [], ◌∷◌, ◌++◌, if◌then◌else◌,
}
use zyncbase.Prelude.Text.{Text, text, text_eq}

-- `segments.length > 1 ? segments[1] : undefined`, where a missing id is the empty text.
abbrev pub second : List Text → Text
second (collection ∷ id ∷ path) = id
second _ = []

-- `value.id || …`
abbrev pub own_id : Option Value → Text → Text
own_id (some (str (c ∷ s))) other = c ∷ s
own_id _ other = other

-- The id under which an item of the snapshot is stored: empty for what is no record.
unfoldable pub item_id : List Text → Value → Text
unfolding get_prop
item_id segments (obj fs) = own_id (get_prop (text "id") fs) (second segments)
item_id segments (bytes bs) = second segments
item_id segments _ = []

abbrev pub set_item : Text → Text → Value → List Op
set_item collection [] v = []
set_item collection (c ∷ s) v = set_op (collection ∷ (c ∷ s) ∷ []) v ∷ []

-- `createInitialSnapshotOp`: one op or none.
unfoldable pub create_initial_snapshot_op : Text → List Text → Value → List Op
unfolding item_id
create_initial_snapshot_op collection segments item =
    set_item collection (item_id segments item) item

unfoldable pub snapshot_ops : Text → List Text → Items → List Op
unfolding create_initial_snapshot_op
snapshot_ops collection segments nil = []
snapshot_ops collection segments (cons v vs) =
    create_initial_snapshot_op collection segments v ++ snapshot_ops collection segments vs

abbrev pub first : List Text → Text
first [] = []
first (s ∷ ss) = s

-- `createInitialSnapshotDelta`; for `null`, `createInitialSnapshotOp` gives no op either.
unfoldable pub create_initial_snapshot_delta : ℕ → List Text → Value → StoreDelta
unfolding snapshot_ops
create_initial_snapshot_delta sub_id segments (arr vs) = record {
  sub_id = sub_id;
  ops = snapshot_ops (first segments) segments vs;
}
create_initial_snapshot_delta sub_id segments v = record {
  sub_id = sub_id;
  ops = create_initial_snapshot_op (first segments) segments v;
}

abbrev pub has_ops : List Op → Bool
has_ops [] = false
has_ops (op ∷ ops) = true

-- `dispatchInitialSnapshot`
unfoldable pub dispatch_initial_snapshot :
    {Q : Type 0} → ℕ → List Text → Value → Tracker Q → Tracker Q
unfolding create_initial_snapshot_delta dispatch
dispatch_initial_snapshot sub_id segments v t =
    let delta = create_initial_snapshot_delta sub_id segments v in
    if has_ops delta.ops then dispatch delta t else t

-- The last item with the id, or what was there.
unfoldable pub last_item : List Text → Text → Items → Option Value → Option Value
unfolding item_id
last_item segments id nil old = old
last_item segments id (cons v vs) old =
    last_item segments id vs (if text_eq (item_id segments v) id then some v else old)

last_write-set_item :
    (collection key id : Text) (v : Value) (ops : List Op) (old : Option Value)
    → id ≢ []
    → last_write id (set_item collection key v ++ ops) old
      ≡ last_write id ops (if text_eq key id then some v else old)
unfolding last_write text_eq
last_write-set_item collection [] [] v ops old ne = absurd (ne refl)
last_write-set_item collection [] (c ∷ s) v ops old ne = refl
last_write-set_item collection (c ∷ s) id v ops old ne = refl

last_write-snapshot_ops :
    (collection : Text) (segments : List Text) (id : Text) (vs : Items) (old : Option Value)
    → id ≢ []
    → last_write id (snapshot_ops collection segments vs) old ≡ last_item segments id vs old
unfolding snapshot_ops last_item last_write create_initial_snapshot_op
last_write-snapshot_ops collection segments id nil old ne = refl
last_write-snapshot_ops collection segments id (cons v vs) old ne =
    last_write-set_item collection (item_id segments v) id v (snapshot_ops collection segments vs)
      old ne
    ∙ last_write-snapshot_ops collection segments id vs _ ne

-- The ops of an initial snapshot put each record of the list under its id, a later one in place of
-- an earlier one; what has no id is left out, and records of other ids stay.
pub lookup-create_initial_snapshot_delta :
    (sub_id : ℕ) (segments : List Text) (vs : Items) (rs : Dict Value) (id : Text)
    → id ≢ []
    → lookup id
        (apply_ops_to_view (create_initial_snapshot_delta sub_id segments (arr vs)).ops false rs).0
      ≡ last_item segments id vs (lookup id rs)
unfolding create_initial_snapshot_delta
lookup-create_initial_snapshot_delta sub_id segments vs rs id ne =
    lookup-apply_ops_to_view (snapshot_ops (first segments) segments vs) false rs id
    ∙ last_write-snapshot_ops (first segments) segments id vs (lookup id rs) ne
