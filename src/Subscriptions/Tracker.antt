-- ===== src/Subscriptions/Tracker.antt =====
-- `SubscriptionTracker` of subscriptions.ts. The callbacks that applications register are numbered;
-- what they are called with is a log, and so are the calls of `onRemap`. A callback that throws is
-- caught, and one that calls the tracker itself is not modelled. Q is the type of the parameters
-- that are kept for `replayAll`.
use zyncbase.Prelude.Dict.{Dict}
use zyncbase.Json.{Value}
use zyncbase.Subscriptions.Views.{Op, MaterializedView, apply_ops_to_view, snapshot_view}
use zyncbase.Subscriptions.Projection.{ListenProjection, project, values_equal}
use zyncbase.Prelude.Table.{find, put, remove}
use zyncbase.Prelude.{
  ℕ, Bool, true, false, ◌||◌, Option, none, some, List, [], ◌∷◌, ◌++◌, map, if◌then◌else◌, is_some,
}

pub record StoreDelta : Type 0 where
  pub sub_id : ℕ
  pub ops : List Op

pub record SubscriptionEntry (Q : Type 0) : Type 0 where
  pub params : Q
  pub callbacks : List ℕ
  pub projection : Option ListenProjection
  pub view : Option MaterializedView
  pub on_remap : Option ℕ
  pub last_value : Option Value
  pub delivered_value : Option Value

pub record Tracker (Q : Type 0) : Type 0 where
  pub subscriptions : List (ℕ × SubscriptionEntry Q)
  pub delta_queue : List StoreDelta
  pub pending_deltas : List StoreDelta
  pub flush_scheduled : Bool
  pub connected : Bool
  pub calls : List (ℕ × Value)
  pub remaps : List (ℕ × ℕ)

-- The loop of `_applyToSubscription` over the deltas.
unfoldable pub apply_deltas : List StoreDelta → Bool → Dict Value → Dict Value × Bool
unfolding apply_ops_to_view
apply_deltas [] changed rs = (rs, changed)
apply_deltas (d ∷ ds) changed rs =
    let (rs', now) = apply_ops_to_view d.ops false rs in apply_deltas ds (now || changed) rs'

-- The deltas of each subscription: `bySub` of `_flushPending`.
unfoldable pub add_delta :
    StoreDelta → Option (List StoreDelta) → List (ℕ × List StoreDelta) → List (ℕ × List StoreDelta)
unfolding put
add_delta d none by_sub = put d.sub_id (d ∷ []) by_sub
add_delta d (some list) by_sub = put d.sub_id (list ++ d ∷ []) by_sub

unfoldable pub group_deltas :
    List StoreDelta → List (ℕ × List StoreDelta) → List (ℕ × List StoreDelta)
unfolding add_delta find
group_deltas [] by_sub = by_sub
group_deltas (d ∷ ds) by_sub = group_deltas ds (add_delta d (find d.sub_id by_sub) by_sub)

-- Whether `_dispatchDelta` leaves out a value: a field that did not change.
unfoldable pub is_suppressed : Option ListenProjection → Option Value → Value → Bool
unfolding values_equal
is_suppressed (some (some name)) (some last) v = values_equal v last
is_suppressed _ _ v = false

module _ {Q : Type 0} where
  unfoldable pub register : ℕ → SubscriptionEntry Q → Tracker Q → Tracker Q
  unfolding put
  register sub_id e t = record t { subscriptions = put sub_id e t.subscriptions }

  unfoldable pub unregister : ℕ → Tracker Q → Tracker Q
  unfolding remove
  unregister sub_id t = record t { subscriptions = remove sub_id t.subscriptions }

  unfoldable pub get : ℕ → Tracker Q → Option (SubscriptionEntry Q)
  unfolding find
  get sub_id t = find sub_id t.subscriptions

  unfoldable pub all_sub_ids : Tracker Q → List ℕ
  all_sub_ids t = map (λ e. e.0) t.subscriptions

  unfoldable pub set_disconnected : Tracker Q → Tracker Q
  set_disconnected t = record t { connected = false }

  -- The end of `_applyToSubscription`: the view with its new records, and the calls.
  abbrev pub publish_view :
      SubscriptionEntry Q → MaterializedView → Bool → SubscriptionEntry Q × List (ℕ × Value)
  publish_view e view false = (record e { view = some view }, [])
  publish_view e view true =
      let value = snapshot_view view in
      (
        record e { view = some view; last_value = some value; delivered_value = some value },
        map (λ cb. (cb, value)) e.callbacks,
      )

  -- `_applyToSubscription`: the entry afterwards, and the calls of its callbacks.
  unfoldable pub apply_to_subscription :
      SubscriptionEntry Q → List StoreDelta → SubscriptionEntry Q × List (ℕ × Value)
  unfolding apply_deltas
  apply_to_subscription e ds = elim e.view [
    | none ↦ (e, [])
    | some view ↦
        let (rs, changed) = apply_deltas ds false view.records in
        publish_view e (record view { records = rs }) changed
  ]

  -- The last loop of `_flushPending`.
  unfoldable pub flush_groups : List (ℕ × List StoreDelta) → Tracker Q → Tracker Q
  unfolding apply_to_subscription find put
  flush_groups [] t = t
  flush_groups ((sub_id, ds) ∷ by_sub) t = elim (find sub_id t.subscriptions) [
    | none ↦ flush_groups by_sub t
    | some e ↦
        let (e', calls) = apply_to_subscription e ds in
        flush_groups by_sub
          (record t { subscriptions = put sub_id e' t.subscriptions; calls = t.calls ++ calls })
  ]

  -- `_flushPending`
  unfoldable pub flush_pending : Tracker Q → Tracker Q
  unfolding flush_groups group_deltas
  flush_pending t =
      flush_groups (group_deltas t.pending_deltas []) (record t { pending_deltas = [] })

  -- The callback of the timer that `scheduleFlush` sets.
  unfoldable pub flush_timer : Tracker Q → Tracker Q
  unfolding flush_pending
  flush_timer t = flush_pending (record t { flush_scheduled = false })

  -- The value that `_dispatchDelta` delivers, and the view afterwards.
  unfoldable pub delta_value : SubscriptionEntry Q → List Op → Option MaterializedView × Value
  unfolding apply_ops_to_view snapshot_view project
  delta_value e ops = elim e.view [
    | none ↦ (none, project e.projection ops)
    | some view ↦
        let view' = record view { records = (apply_ops_to_view ops false view.records).0 } in
        (some view', snapshot_view view')
  ]

  -- `_dispatchDelta` for the entry of the delta.
  unfoldable pub deliver_delta :
      SubscriptionEntry Q → List Op → SubscriptionEntry Q × List (ℕ × Value)
  unfolding delta_value is_suppressed
  deliver_delta e ops =
      let (view, value) = delta_value e ops in
      if is_suppressed e.projection e.last_value value then (record e { view = view }, []) else (
        record e { view = view; last_value = some value; delivered_value = some value },
        map (λ cb. (cb, value)) e.callbacks,
      )

  -- `_dispatchDelta`
  unfoldable pub dispatch_delta : StoreDelta → Tracker Q → Tracker Q
  unfolding deliver_delta find put
  dispatch_delta d t = elim (find d.sub_id t.subscriptions) [
    | none ↦ t
    | some e ↦
        let (e', calls) = deliver_delta e d.ops in
        record t { subscriptions = put d.sub_id e' t.subscriptions; calls = t.calls ++ calls }
  ]

  abbrev pub has_view : Option (SubscriptionEntry Q) → Bool
  has_view none = false
  has_view (some e) = is_some e.view

  -- `dispatch`, with `scheduleFlush`.
  unfoldable pub dispatch : StoreDelta → Tracker Q → Tracker Q
  unfolding dispatch_delta find
  dispatch d t =
      if t.connected
      then if has_view (find d.sub_id t.subscriptions)
        then record t { pending_deltas = t.pending_deltas ++ d ∷ []; flush_scheduled = true }
        else dispatch_delta d t
      else record t { delta_queue = t.delta_queue ++ d ∷ [] }

  unfoldable pub dispatch_all : List StoreDelta → Tracker Q → Tracker Q
  unfolding dispatch
  dispatch_all [] t = t
  dispatch_all (d ∷ ds) t = dispatch_all ds (dispatch d t)
