-- ===== src/Subscriptions/Order.antt =====
-- `dispatch` and `reconnect` of subscriptions.ts: the order of deltas around a reconnect.
use zyncbase.Subscriptions.Tracker.{StoreDelta, Tracker, dispatch_delta}
use zyncbase.Prelude.Table.{find}
use zyncbase.Prelude.{Option-cases, inl, inr, ◌≡◌, refl, List}

-- A callback that does the same whatever is queued, and leaves the queue as it is.
abbrev pub LeavesQueue : {Q : Type 0} → (Tracker Q → Tracker Q) → Type 0
LeavesQueue {Q = Q} f =
    (t : Tracker Q) (queue : List StoreDelta)
    → f (record t { delta_queue = queue }) ≡ record (f t) { delta_queue = queue }

module _ {Q : Type 0} where
  pub dispatch_delta-LeavesQueue : (d : StoreDelta) → LeavesQueue (dispatch_delta {Q = Q} d)
  unfolding dispatch_delta
  dispatch_delta-LeavesQueue d t queue = elim (Option-cases (find d.sub_id t.subscriptions)) [
    | inl missing ↦ rw (missing, dispatch_delta) refl
    | inr (e, found) ↦ rw (found, dispatch_delta) refl
  ]
