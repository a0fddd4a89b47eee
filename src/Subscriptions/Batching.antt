-- ===== src/Subscriptions/Batching.antt =====
-- `_flushPending` and `_applyOpsToView` of subscriptions.ts, seen from one subscription and from one
-- document of its view.
use mathlib.Core.Option
use zyncbase.Json.{Value}
use zyncbase.Subscriptions.Views.{Op, set_op, remove_op, id_of, apply_ops_to_view}
use zyncbase.Subscriptions.Tracker.{
  StoreDelta, SubscriptionEntry, Tracker, apply_deltas, add_delta, group_deltas,
  apply_to_subscription, flush_groups, flush_pending,
}
use mathlib.Core.List.{append-nil, append_assoc}
use zyncbase.Prelude.Table.{find, put, find-put}
use zyncbase.Prelude.Dict.{Dict, lookup, insert, delete, lookup-insert, lookup-delete}
use zyncbase.Prelude.{
  ℕ, ◌≡◌, refl, sym, ap, ◌∙◌, Bool, true, false, ◌||◌, Option, none, some, List, [], ◌∷◌, ◌++◌,
  ◌==◌, if◌then◌else◌, is_some, inl, inr, arith, ==_iff, Bool-cases, Option-cases,
}
use zyncbase.Prelude.Text.{Text, text_eq}

-- What the last op for a document leaves of its record.
unfoldable pub last_write : Text → List Op → Option Value → Option Value
last_write id [] old = old
last_write id (set_op path v ∷ ops) old =
    last_write id ops (if text_eq (id_of path) id then some v else old)
last_write id (remove_op path ∷ ops) old =
    last_write id ops (if text_eq (id_of path) id then none else old)

-- The last op for a document decides on its record in the view, and the records of the others stay.
pub lookup-apply_ops_to_view :
    (ops : List Op) (changed : Bool) (rs : Dict Value) (id : Text)
    → lookup id (apply_ops_to_view ops changed rs).0 ≡ last_write id ops (lookup id rs)
unfolding apply_ops_to_view last_write
lookup-apply_ops_to_view [] changed rs id = refl
lookup-apply_ops_to_view (set_op path v ∷ ops) changed rs id =
    lookup-apply_ops_to_view ops true (insert (id_of path) v rs) id
    ∙ ap (last_write id ops) (lookup-insert (id_of path) id v rs)
lookup-apply_ops_to_view (remove_op path ∷ ops) changed rs id =
    lookup-apply_ops_to_view ops (is_some (lookup (id_of path) rs) || changed)
      (delete (id_of path) rs) id
    ∙ ap (last_write id ops) (lookup-delete (id_of path) id rs)

-- The ops of some deltas.
unfoldable pub all_ops : List StoreDelta → List Op
all_ops [] = []
all_ops (d ∷ ds) = d.ops ++ all_ops ds

apply_ops-append :
    (xs ys : List Op) (changed : Bool) (rs : Dict Value)
    → apply_ops_to_view (xs ++ ys) changed rs
      ≡ apply_ops_to_view ys (apply_ops_to_view xs changed rs).1 (apply_ops_to_view xs changed rs).0
unfolding apply_ops_to_view
apply_ops-append [] ys changed rs = refl
apply_ops-append (set_op path v ∷ xs) ys changed rs = apply_ops-append xs ys true _
apply_ops-append (remove_op path ∷ xs) ys changed rs = apply_ops-append xs ys _ _

or_assoc : (a b c : Bool) → ((a || b) || c) ≡ (a || (b || c))
or_assoc a b c = ground arith

apply_ops-flag :
    (xs : List Op) (now before : Bool) (rs : Dict Value)
    → ((apply_ops_to_view xs (now || before) rs).0 ≡ (apply_ops_to_view xs now rs).0)
      × ((apply_ops_to_view xs (now || before) rs).1 ≡ ((apply_ops_to_view xs now rs).1 || before))
unfolding apply_ops_to_view
apply_ops-flag [] now before rs = (refl, refl)
apply_ops-flag (set_op path v ∷ xs) now before rs = apply_ops-flag xs true before _
apply_ops-flag (remove_op path ∷ xs) now before rs =
    let (same, flag) =
      apply_ops-flag xs (is_some (lookup (id_of path) rs) || now) before (delete (id_of path) rs) in
    let e = or_assoc (is_some (lookup (id_of path) rs)) now before in (cc, cc)

-- Applying deltas one by one is applying all their ops.
pub apply_deltas-all_ops :
    (ds : List StoreDelta) (changed : Bool) (rs : Dict Value)
    → apply_deltas ds changed rs ≡ apply_ops_to_view (all_ops ds) changed rs
unfolding apply_deltas all_ops apply_ops_to_view
apply_deltas-all_ops [] changed rs = refl
apply_deltas-all_ops (d ∷ ds) changed rs =
    let (same, flag) = apply_ops-flag d.ops false changed rs in
    apply_deltas-all_ops ds _ _ ∙ sym (apply_ops-append d.ops (all_ops ds) changed rs ∙ cc)

-- The deltas of one subscription, in their order.
unfoldable pub deltas_of : ℕ → List StoreDelta → List StoreDelta
deltas_of id [] = []
deltas_of id (d ∷ ds) = let rest = deltas_of id ds in if d.sub_id == id then d ∷ rest else rest

abbrev pub joined_with : Option (List StoreDelta) → List StoreDelta → Option (List StoreDelta)
joined_with none [] = none
joined_with none (d ∷ ds) = some (d ∷ ds)
joined_with (some list) ds = some (list ++ ds)

joined_with_nil : (o : Option (List StoreDelta)) → joined_with o [] ≡ o
joined_with_nil none = refl
joined_with_nil (some list) = ap some (append-nil list)

-- A delta joins the list of its subscription.
find-add_delta :
    (d : StoreDelta) (m : List (ℕ × List StoreDelta)) (id : ℕ)
    → find id (add_delta d (find d.sub_id m) m)
      ≡ (if d.sub_id == id then joined_with (find d.sub_id m) (d ∷ []) else find id m)
unfolding add_delta
find-add_delta d m id = elim (Option-cases (find d.sub_id m)) [
  | inl absent ↦ rw (absent, add_delta) (find-put d.sub_id id (d ∷ []) m)
  | inr (list, present) ↦ rw (present, add_delta) (find-put d.sub_id id (list ++ d ∷ []) m)
]

joined_with-cons :
    (o : Option (List StoreDelta)) (d : StoreDelta) (ds : List StoreDelta)
    → joined_with (joined_with o (d ∷ [])) ds ≡ joined_with o (d ∷ ds)
joined_with-cons none d ds = refl
joined_with-cons (some list) d ds = ap some (append_assoc list (d ∷ []) ds)

find-group_deltas :
    (ds : List StoreDelta) (m : List (ℕ × List StoreDelta)) (id : ℕ)
    → find id (group_deltas ds m) ≡ joined_with (find id m) (deltas_of id ds)
unfolding group_deltas deltas_of
find-group_deltas [] m id = sym (joined_with_nil (find id m))
find-group_deltas (d ∷ ds) m id =
    find-group_deltas ds (add_delta d (find d.sub_id m) m) id ∙ elim (Bool-cases (d.sub_id == id)) [
      | inl same ↦
          let e : d.sub_id ≡ id = (==_iff d.sub_id id).0 same in
          rw (find-add_delta d m id, same)
            (joined_with-cons (find d.sub_id m) d (deltas_of id ds)
              ∙ ap (λ k. joined_with (find k m) (d ∷ deltas_of id ds)) e)
      | inr other ↦ rw (find-add_delta d m id, other) refl
    ]

-- No subscription has two groups.
abbrev pub Distinct : {A : Type 0} → List (ℕ × A) → Type 0
Distinct [] = Unit {0}
Distinct ((k, a) ∷ m) = (find k m ≡ none) × Distinct m

put-Distinct : {A : Type 0} (k : ℕ) (a : A) (m : List (ℕ × A)) → Distinct m → Distinct (put k a m)
unfolding put find
put-Distinct k a [] h = (refl, tt)
put-Distinct k a ((j, b) ∷ m) (fresh, h) = elim (Bool-cases (j == k)) [
  | inl same ↦ let e : j ≡ k = (==_iff j k).0 same in rw (same) ((cc, h))
  | inr other ↦
      rw (other)
        ((rw (find-put k j a m) (ground (arith, ==_iff k j, ==_iff j k))), put-Distinct k a m h)
]

add_delta-Distinct :
    (d : StoreDelta) (m : List (ℕ × List StoreDelta)) (o : Option (List StoreDelta))
    → Distinct m
    → Distinct (add_delta d o m)
unfolding add_delta
add_delta-Distinct d m none h = put-Distinct d.sub_id (d ∷ []) m h
add_delta-Distinct d m (some list) h = put-Distinct d.sub_id (list ++ d ∷ []) m h

group_deltas-Distinct :
    (ds : List StoreDelta) (m : List (ℕ × List StoreDelta))
    → Distinct m
    → Distinct (group_deltas ds m)
unfolding group_deltas
group_deltas-Distinct [] m h = h
group_deltas-Distinct (d ∷ ds) m h =
    group_deltas-Distinct ds _ (add_delta-Distinct d m (find d.sub_id m) h)

module _ {Q : Type 0} where
  -- What a flush makes of an entry for which there is a group of deltas, or none.
  unfoldable pub flushed : Option (List StoreDelta) → SubscriptionEntry Q → SubscriptionEntry Q
  unfolding apply_to_subscription
  flushed none e = e
  flushed (some ds) e = (apply_to_subscription e ds).0

  flushed-none : (o : Option (SubscriptionEntry Q)) → Option.map (flushed none) o ≡ o
  unfolding flushed
  flushed-none none = refl
  flushed-none (some e) = refl

  unknown_group :
      (m : List (ℕ × List StoreDelta)) (t : Tracker Q) (k id : ℕ) (ds : List StoreDelta)
      → find k t.subscriptions ≡ none
      → Option.map (flushed (find id m)) (find id t.subscriptions)
        ≡ Option.map (flushed (if k == id then some ds else find id m)) (find id t.subscriptions)
  unknown_group m t k id ds absent = elim (Bool-cases (k == id)) [
    | inl same ↦
        let e : k ≡ id = (==_iff k id).0 same in
        let gone : find id t.subscriptions ≡ none = rw (← e) absent in rw (same, gone) refl
    | inr other ↦ rw other refl
  ]

  known_group :
      (m : List (ℕ × List StoreDelta)) (t : Tracker Q) (k id : ℕ) (ds : List StoreDelta)
      (e : SubscriptionEntry Q)
      → find k m ≡ none
      → find k t.subscriptions ≡ some e
      → Option.map
          (flushed (find id m))
          (if k == id then some (apply_to_subscription e ds).0 else find id t.subscriptions)
        ≡ Option.map (flushed (if k == id then some ds else find id m)) (find id t.subscriptions)
  unfolding flushed
  known_group m t k id ds e fresh present = elim (Bool-cases (k == id)) [
    | inl same ↦
        let q : k ≡ id = (==_iff k id).0 same in
        let single : find id m ≡ none = rw (← q) fresh in
        let there : find id t.subscriptions ≡ some e = rw (← q) present in
        rw (same, single, there) refl
    | inr other ↦ rw other refl
  ]

  -- The loop does to an entry what the group of its subscription says.
  find-flush_groups :
      (m : List (ℕ × List StoreDelta)) (t : Tracker Q) (id : ℕ)
      → Distinct m
      → find id (flush_groups m t).subscriptions
        ≡ Option.map (flushed (find id m)) (find id t.subscriptions)
  unfolding flush_groups find
  find-flush_groups [] t id h = sym (flushed-none (find id t.subscriptions))
  find-flush_groups ((k, ds) ∷ m) t id (fresh, h) = elim (Option-cases (find k t.subscriptions)) [
    | inl absent ↦
        rw (absent, flush_groups) (find-flush_groups m t id h ∙ unknown_group m t k id ds absent)
    | inr (e, present) ↦
        let e' = (apply_to_subscription e ds).0 in
        rw (present, flush_groups)
          (find-flush_groups m _ id h
            ∙ ap (Option.map (flushed (find id m))) (find-put k id e' t.subscriptions)
            ∙ known_group m t k id ds e fresh present)
  ]

  -- A flush does to each subscription what its own pending deltas do, all in one go.
  pub find-flush_pending :
      (t : Tracker Q) (id : ℕ)
      → find id (flush_pending t).subscriptions
        ≡ Option.map
            (flushed (joined_with none (deltas_of id t.pending_deltas)))
            (find id t.subscriptions)
  unfolding flush_pending find
  find-flush_pending t id =
      find-flush_groups (group_deltas t.pending_deltas []) _ id
        (group_deltas-Distinct t.pending_deltas [] tt)
      ∙ ap (λ o. Option.map (flushed o) (find id t.subscriptions))
          (find-group_deltas t.pending_deltas [] id)
