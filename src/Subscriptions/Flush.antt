-- ===== src/Subscriptions/Flush.antt =====
-- `_applyToSubscription` and `_flushPending` of subscriptions.ts: the view of one subscription.
use mathlib.Core.Option
use zyncbase.Json.{Value}
use zyncbase.Subscriptions.Views.{
  Op, set_op, remove_op, id_of, MaterializedView, apply_ops_to_view, snapshot_view,
}
use zyncbase.Subscriptions.Tracker.{
  StoreDelta, SubscriptionEntry, Tracker, apply_deltas, apply_to_subscription, publish_view,
  flush_pending,
}
use zyncbase.Subscriptions.Batching.{
  last_write, lookup-apply_ops_to_view, all_ops, apply_deltas-all_ops, deltas_of, joined_with,
  flushed, find-flush_pending,
}
use zyncbase.Prelude.Table.{find}
use zyncbase.Prelude.Dict.{Dict, lookup, insert, delete, delete-absent}
use zyncbase.Prelude.{
  ◌≡◌, refl, ◌⊎◌, inl, inr, Bool, true, false, some, List, ℕ, ap, ◌∙◌, ◌||◌, none, [], ◌∷◌,
  Option-cases, is_some,
}
use zyncbase.Prelude.Text.{Text}

-- The entry after a flush: its view holds for each document what the last pending op says, and what
-- was delivered last is the snapshot of the view, unless nothing changed.
pub record IsFlushed {Q : Type 0} (ds : List StoreDelta) (view : MaterializedView)
    (e e' : SubscriptionEntry Q) : Type 0 where
  pub view' : MaterializedView
  pub has_view : e'.view ≡ some view'
  pub record_at :
      (id : Text) → lookup id view'.records ≡ last_write id (all_ops ds) (lookup id view.records)
  pub delivered :
      (e'.delivered_value ≡ some (snapshot_view view'))
      ⊎ ((e'.delivered_value ≡ e.delivered_value) × (view'.records ≡ view.records))

-- Ops that report no change have left the records as they were.
apply_ops_quiet :
    (ops : List Op) (changed : Bool) (rs : Dict Value)
    → (apply_ops_to_view ops changed rs).1 ≡ false
    → (changed ≡ false) × ((apply_ops_to_view ops changed rs).0 ≡ rs)
unfolding apply_ops_to_view
apply_ops_quiet [] changed rs h = (h, refl)
apply_ops_quiet (set_op path v ∷ ops) changed rs h =
    let (unset, _) = apply_ops_quiet ops true (insert (id_of path) v rs) h in cc
apply_ops_quiet (remove_op path ∷ ops) changed rs h =
    let (unset, same) =
      apply_ops_quiet ops (is_some (lookup (id_of path) rs) || changed) (delete (id_of path) rs)
        h in
    elim (Option-cases (lookup (id_of path) rs)) [
      | inl absent ↦ (rw absent at unset, same ∙ delete-absent (id_of path) rs absent)
      | inr (v, present) ↦ cc (rw present at unset)
    ]

module _ {Q : Type 0} where
  published :
      (ds : List StoreDelta) (view : MaterializedView) (e : SubscriptionEntry Q)
      (out : Dict Value × Bool)
      → ((id : Text) → lookup id out.0 ≡ last_write id (all_ops ds) (lookup id view.records))
      → (out.1 ≡ false → out.0 ≡ view.records)
      → IsFlushed ds view e (publish_view e (record view { records = out.0 }) out.1).0
  published ds view e (rs, true) h quiet = record {
    view' = record view { records = rs };
    has_view = refl;
    record_at = h;
    delivered = inl refl;
  }
  published ds view e (rs, false) h quiet = record {
    view' = record view { records = rs };
    has_view = refl;
    record_at = h;
    delivered = inr (refl, quiet refl);
  }

  apply_view :
      (ds : List StoreDelta) (view : MaterializedView) (e : SubscriptionEntry Q)
      → e.view ≡ some view
      → apply_to_subscription e ds
        ≡ publish_view e
            (record view { records = (apply_deltas ds false view.records).0 })
            (apply_deltas ds false view.records).1
  unfolding apply_to_subscription
  apply_view ds view e h = simp (h, apply_to_subscription)

  applied :
      (ds : List StoreDelta) (view : MaterializedView) (e : SubscriptionEntry Q)
      → e.view ≡ some view
      → IsFlushed ds view e (apply_to_subscription e ds).0
  unfolding apply_to_subscription
  applied ds view e h =
      rw (apply_view ds view e h, apply_deltas-all_ops ds false view.records)
        (published ds view e (apply_ops_to_view (all_ops ds) false view.records)
          (lookup-apply_ops_to_view (all_ops ds) false view.records)
          (λ q. (apply_ops_quiet (all_ops ds) false view.records q).1))

  flushed-IsFlushed :
      (ds : List StoreDelta) (view : MaterializedView) (e : SubscriptionEntry Q)
      → e.view ≡ some view
      → IsFlushed ds view e (flushed (joined_with none ds) e)
  unfolding flushed all_ops last_write
  flushed-IsFlushed [] view e h = record {
    view' = view;
    has_view = h;
    record_at = λ id. refl;
    delivered = inr (refl, refl);
  }
  flushed-IsFlushed (d ∷ ds) view e h = applied (d ∷ ds) view e h

-- A flush leaves in the view of a subscription, for each document, what the last pending op of that
-- subscription for the document says, and the old record if there is none. What was delivered last
-- is then the snapshot of that view, unless the records did not change and nothing was delivered.
pub flush_pending-IsFlushed :
    {Q : Type 0} (t : Tracker Q) (sub_id : ℕ) (e : SubscriptionEntry Q) (view : MaterializedView)
    → find sub_id t.subscriptions ≡ some e
    → e.view ≡ some view
    → (e' : SubscriptionEntry Q) × (find sub_id (flush_pending t).subscriptions ≡ some e')
      × IsFlushed (deltas_of sub_id t.pending_deltas) view e e'
flush_pending-IsFlushed t sub_id e view known h = (
  flushed (joined_with none (deltas_of sub_id t.pending_deltas)) e,
  find-flush_pending t sub_id
      ∙ ap (Option.map (flushed (joined_with none (deltas_of sub_id t.pending_deltas)))) known,
  flushed-IsFlushed (deltas_of sub_id t.pending_deltas) view e h,
)
