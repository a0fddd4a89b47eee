-- ===== src/Tests/Views.antt =====
-- Runs of subscriptions.ts of sdk/typescript/src, and its theorems at concrete inputs.
use zyncbase.Json.{Value, num}
use zyncbase.Prelude.Int.{ℤ, pos}
use zyncbase.Prelude.Table.{find}
use zyncbase.Subscriptions.Views.{set_op, remove_op, MaterializedView}
use zyncbase.Subscriptions.Tracker.{
  StoreDelta, SubscriptionEntry, Tracker, dispatch, dispatch_delta, flush_timer, flush_pending,
}
use zyncbase.Subscriptions.Batching.{deltas_of}
use zyncbase.Subscriptions.Flush.{IsFlushed, flush_pending-IsFlushed}
use zyncbase.Prelude.{ℕ, ◌≡◌, refl, true, false, none, some, List, [], ◌∷◌, length}
use zyncbase.Prelude.Text.{Text, text, text_eq}

abbrev compare : Value → Value → ℤ
compare a b = pos 0

abbrev tasks : MaterializedView
tasks = record { records = (text "x", num (pos 1)) ∷ []; comparator = compare }

abbrev entry : SubscriptionEntry ℕ
entry = record {
  params = 0;
  callbacks = 8 ∷ [];
  projection = none;
  view = some tasks;
  on_remap = some 4;
  last_value = none;
  delivered_value = none;
}

abbrev tracker : Tracker ℕ
tracker = record {
  subscriptions = (5, entry) ∷ [];
  delta_queue = [];
  pending_deltas = [];
  flush_scheduled = false;
  connected = true;
  calls = [];
  remaps = [];
}

abbrev path : Text → List Text
path id = text "tasks" ∷ id ∷ []

abbrev added : StoreDelta
added = record { sub_id = 5; ops = set_op (path (text "y")) (num (pos 2)) ∷ [] }

abbrev removed : StoreDelta
removed = record { sub_id = 5; ops = remove_op (path (text "x")) ∷ [] }

-- Two deltas of one tick make one call.
burst_test : length (flush_timer (dispatch removed (dispatch added tracker))).calls ≡ 1
unfolding flush_timer dispatch text_eq
burst_test = refl

abbrev busy : Tracker ℕ
busy = record tracker { pending_deltas = added ∷ removed ∷ [] }

flush_pending-IsFlushed_example :
    (e' : SubscriptionEntry ℕ) × (find 5 (flush_pending busy).subscriptions ≡ some e')
    × IsFlushed (deltas_of 5 busy.pending_deltas) tasks entry e'
unfolding find
flush_pending-IsFlushed_example = flush_pending-IsFlushed busy 5 entry tasks refl refl

-- What comes between the restoring and the draining: each new subscription gets its snapshot.
abbrev repopulate : List (ℕ × ℕ) → Tracker ℕ → Tracker ℕ
repopulate old_to_new t =
    dispatch_delta (record { sub_id = 6; ops = set_op (path (text "z")) (num (pos 3)) ∷ [] }) t
