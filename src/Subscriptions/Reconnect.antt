-- ===== src/Subscriptions/Reconnect.antt =====
-- `reconnect` of `SubscriptionTracker` in subscriptions.ts.
use zyncbase.Subscriptions.Views.{MaterializedView}
use zyncbase.Subscriptions.Tracker.{SubscriptionEntry, Tracker, dispatch_all}
use zyncbase.Prelude.Table.{find, put}
use zyncbase.Prelude.{ℕ, true, Option, none, some, List, [], ◌∷◌, ◌++◌}

-- The id of an entry after `reconnect`: the new one, if there is one.
abbrev pub new_id : Option ℕ → ℕ → ℕ
new_id none old = old
new_id (some id) old = id

abbrev pub remap_call : Option ℕ → Option ℕ → List (ℕ × ℕ)
remap_call (some id) (some cb) = (cb, id) ∷ []
remap_call _ _ = []

-- `records.clear()`, if there is a view.
abbrev pub clear_view : Option MaterializedView → Option MaterializedView
clear_view none = none
clear_view (some view) = some (record view { records = [] })

module _ {Q : Type 0} where
  -- The first loop of `reconnect`: the entries under their new ids, and the calls of `onRemap`.
  unfoldable pub remap_entries :
      List (ℕ × ℕ)
      → List (ℕ × SubscriptionEntry Q)
      → List (ℕ × SubscriptionEntry Q)
      → List (ℕ × SubscriptionEntry Q)
  unfolding find put
  remap_entries old_to_new [] remapped = remapped
  remap_entries old_to_new ((old, e) ∷ es) remapped =
      remap_entries old_to_new es (put (new_id (find old old_to_new) old) e remapped)

  unfoldable pub remap_calls : List (ℕ × ℕ) → List (ℕ × SubscriptionEntry Q) → List (ℕ × ℕ)
  unfolding find
  remap_calls old_to_new [] = []
  remap_calls old_to_new ((old, e) ∷ es) =
      remap_call (find old old_to_new) e.on_remap ++ remap_calls old_to_new es

  -- `clearMaterializedViews`
  unfoldable pub clear_materialized_views :
      List (ℕ × SubscriptionEntry Q) → List (ℕ × SubscriptionEntry Q)
  clear_materialized_views [] = []
  clear_materialized_views ((id, e) ∷ es) =
      (id, record e { view = clear_view e.view }) ∷ clear_materialized_views es

  -- What `reconnect` does before it calls `beforeDrain`.
  unfoldable pub restored : List (ℕ × ℕ) → Tracker Q → Tracker Q
  unfolding remap_entries remap_calls clear_materialized_views
  restored old_to_new t = record t {
    subscriptions = clear_materialized_views (remap_entries old_to_new t.subscriptions []);
    remaps = t.remaps ++ remap_calls old_to_new t.subscriptions;
    pending_deltas = [];
    connected = true;
  }

  -- The last loop of `reconnect`: `deltaQueue.splice(0)`, each delta dispatched.
  unfoldable pub drain : Tracker Q → Tracker Q
  unfolding dispatch_all
  drain t = dispatch_all t.delta_queue (record t { delta_queue = [] })

  -- `reconnect`; without a callback, `beforeDrain` does nothing.
  unfoldable pub reconnect :
      List (ℕ × ℕ) → (List (ℕ × ℕ) → Tracker Q → Tracker Q) → Tracker Q → Tracker Q
  unfolding restored drain
  reconnect old_to_new before_drain t = drain (before_drain old_to_new (restored old_to_new t))
