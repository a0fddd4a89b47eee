-- ===== src/StoreWire/WriteLaws.antt =====
-- Writes on their own and in a batch, writes below a document, and a read of what was written.
use zyncbase.StoreWire.Writes.{
  encode_write_value, wire_value, set_message, set_command, set_at, build_set, set_op, batch_set_at,
  build_batch_op, or_null,
}
use zyncbase.StoreWire.{
  StoreCommand, Confirm, accepted, committed, path_of, confirm_fields, write_id,
}
use zyncbase.StoreWire.SortViews.{split_on-some}
use zyncbase.Path.{join, split_on, Address, normalize_path, set_deep, get_deep, child_of}
use zyncbase.StoreWire.Queries.{own_prop, walk, shape_get_result}
use zyncbase.Wire.Encode.{encode_store_set_remove, encode_batch_op}
use zyncbase.Wire.Laws.{set_with, batch_set, encode_batch_op-set_with}
use zyncbase.Schema.{SchemaDictionary}
use zyncbase.Path.Deep.{IsOpen, get_deep-set_deep}
use zyncbase.Json.{Value, null, bool, num, str, bytes, arr, obj, Fields, end, field}
use zyncbase.Errors.{new_error, ZyncBaseError}
use zyncbase.Prelude.{
  ◌≡◌, refl, sym, inl, inr, true, Option, none, some, List, [], ◌∷◌, Bool-cases, Option-cases, ℕ,
  ap, ◌∙◌, ◌==◌,
}
use zyncbase.Prelude.Result.{Result, ok, err, Result-cases}
use zyncbase.Prelude.Text.{Text, text}

-- The properties that ask for a confirmation: none, only the kind, or the kind and a write id, which is
-- the UUID without its dashes.
abbrev pub confirmation : Option Confirm → Text → Fields
confirmation none uuid = end
confirmation (some accepted) uuid = field (text "confirm") (str (text "accepted")) end
confirmation (some committed) uuid =
    field (text "confirm") (str (text "committed"))
      (field (text "writeId") (str (join [] (split_on b'-' uuid))) end)

join_nil-cons : (c : ℕ) (p : Text) (ps : List Text) → join [] ((c ∷ p) ∷ ps) ≡ c ∷ join [] (p ∷ ps)
unfolding join
join_nil-cons c p [] = refl
join_nil-cons c p (q ∷ qs) = refl

join_nil-next : (ps : List Text) → join [] ([] ∷ ps) ≡ join [] ps
unfolding join
join_nil-next [] = refl
join_nil-next (p ∷ ps) = refl

write_id-split_on : (s : Text) → write_id s ≡ join [] (split_on b'-' s)
unfolding write_id split_on join
write_id-split_on [] = refl
write_id-split_on (c ∷ s) =
    let (p, ps, e) = split_on-some b'-' s in
    let ih = write_id-split_on s in
    elim (Bool-cases (c == b'-')) [
      | inl dash ↦ rw dash (ih ∙ sym (join_nil-next (split_on b'-' s)))
      | inr other ↦ rw (other, ih, e) (sym (join_nil-cons c p ps))
    ]

pub confirm_fields-confirmation :
    (confirm : Option Confirm) (uuid : Text)
    → confirm_fields confirm uuid ≡ confirmation confirm uuid
unfolding confirm_fields
confirm_fields-confirmation none uuid = refl
confirm_fields-confirmation (some accepted) uuid = refl
confirm_fields-confirmation (some committed) uuid = rw (write_id-split_on uuid) refl

-- What a set alone and a set in a batch have in common; `more` is what the message has besides.
abbrev pub SameSet :
    Fields → Result ZyncBaseError StoreCommand → Result ZyncBaseError Value → Type 0
SameSet more (ok c) (ok o) =
    (p : Value) × (w : Value) × (c.message ≡ set_with p w more) × (o ≡ batch_set p w)
SameSet more (err e) (err e') = (e.code ≡ e'.code) × (e.retryable ≡ e'.retryable)
SameSet more _ _ = ⊥

set_at-same :
    (v : Option Value) (confirm : Option Confirm) (uuid : Text) (ss : List Text)
    → SameSet (confirmation confirm uuid) (set_at (or_null v) confirm uuid ss) (batch_set_at v ss)
unfolding set_at batch_set_at set_message set_command new_error
set_at-same v confirm uuid [] = (refl, refl)
set_at-same v confirm uuid (c ∷ []) = (refl, refl)
set_at-same v confirm uuid (c ∷ id ∷ ps) = (
  path_of (c ∷ id ∷ []),
  encode_write_value (wire_value ps (or_null v)),
  ap (set_with (path_of (c ∷ id ∷ [])) (encode_write_value (wire_value ps (or_null v))))
      (confirm_fields-confirmation confirm uuid),
  refl,
)

-- `buildSet` and a set in `buildBatchOp` accept the same paths, with the same path and value in their
-- messages, and reject the others with the same code.
pub build_batch_op-set :
    (path : Address) (v : Option Value) (confirm : Option Confirm) (uuid : Text)
    → SameSet
        (confirmation confirm uuid)
        (build_set path (or_null v) confirm uuid)
        (build_batch_op (set_op path v))
unfolding build_set build_batch_op
build_batch_op-set path v confirm uuid = elim (Result-cases (normalize_path path)) [
  | inl (e, bad) ↦ rw bad (refl, refl)
  | inr (ss, good) ↦ rw good (set_at-same v confirm uuid ss)
]

pub split_SameSet :
    (more : Fields) (c : StoreCommand) (o : Result ZyncBaseError Value)
    → SameSet more (ok c) o
    → (p : Value) × (w : Value) × (c.message ≡ set_with p w more) × (o ≡ ok (batch_set p w))
split_SameSet more c (ok o) (p, w, m, e) = (p, w, m, rw e refl)
split_SameSet more c (err e) h = absurd h

-- From the call to the wire, with or without a confirmation: where a set and its encoding succeed, the
-- same set in a batch succeeds as well, and has the same path and value on the wire, where the set has
-- the properties of its confirmation besides.
pub encode_batch_op-build_set :
    (d : SchemaDictionary) (path : Address) (v : Value) (confirm : Option Confirm) (uuid : Text)
    (c : StoreCommand) (wire : Fields)
    → build_set path v confirm uuid ≡ ok c
    → encode_store_set_remove d true c.message ≡ ok wire
    → (o : Value) × (q : Value) × (w : Value) × (build_batch_op (set_op path (some v)) ≡ ok o)
      × (wire ≡ set_with q w (confirmation confirm uuid))
      × (encode_batch_op d o ≡ ok (batch_set q w))
encode_batch_op-build_set d path v confirm uuid c wire built encoded =
    let both = build_batch_op-set path (some v) confirm uuid in
    let same = rw built at both in
    let more = confirmation confirm uuid in
    let (p, w, message, op) = split_SameSet more c (build_batch_op (set_op path (some v))) same in
    let (q, u, shape, batch) = encode_batch_op-set_with d p w more wire (rw message at encoded) in
    (batch_set p w, q, u, op, shape, batch)

child_of-own : (p : Text) (v w : Value) → child_of p v ≡ some w → own_prop p v ≡ some w
unfolding own_prop
child_of-own p (obj fs) w h = h
child_of-own p null w h = cc
child_of-own p (bool b) w h = cc
child_of-own p (num n) w h = cc
child_of-own p (str s) w h = cc
child_of-own p (bytes bs) w h = cc
child_of-own p (arr vs) w h = cc

walk-get_deep :
    (whole ps : List Text) (v w : Value) → get_deep v ps ≡ some w → walk whole ps v ≡ ok w
unfolding walk get_deep
walk-get_deep whole [] v w h = cc
walk-get_deep whole (p ∷ ps) v w h = elim (Option-cases (child_of p v)) [
  | inl missing ↦ (let g = rw (missing, get_deep) at h in cc)
  | inr (u, found) ↦
      (let g = rw (found, get_deep) at h in
        rw (child_of-own p v u found, walk) (walk-get_deep whole ps u w g))
]

-- A get of a field returns what `setDeepProperty` has written there, if the row is an object and no
-- property on the way is a byte array.
pub shape_get_result-set_deep :
    (collection id p : Text) (ps : List Text) (fs : Fields) (v : Value) (rows : List Value)
    → IsOpen fs (p ∷ ps)
    → shape_get_result (collection ∷ id ∷ p ∷ ps) (obj (set_deep fs (p ∷ ps) v) ∷ rows)
      ≡ ok (some v)
unfolding shape_get_result
shape_get_result-set_deep collection id p ps fs v rows open_ =
    rw
      (walk-get_deep (collection ∷ id ∷ p ∷ ps) (p ∷ ps) (obj (set_deep fs (p ∷ ps) v)) v
        (get_deep-set_deep (p ∷ ps) fs v open_))
      refl
