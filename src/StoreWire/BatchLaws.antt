-- ===== src/StoreWire/BatchLaws.antt =====
-- Which batches are accepted, and what their messages hold.
use zyncbase.StoreWire.WriteLaws.{
  SameSet, build_batch_op-set, split_SameSet, confirmation, confirm_fields-confirmation,
}
use zyncbase.Wire.{store_remove}
use zyncbase.StoreWire.Writes.{
  build_set, BatchOperation, set_op, build_batch_op, build_ops, build_batch, max_batch, or_null,
  build_remove, remove_at, remove_op, batch_remove_at,
}
use zyncbase.StoreWire.{StoreCommand, Confirm, path_of, confirm_fields}
use zyncbase.Path.{Address, normalize_path}
use zyncbase.Wire.Laws.{set_request, batch_set}
use zyncbase.Json.{Value, str, arr, Items, nil, cons, Fields, end, field}
use zyncbase.Errors.{ZyncBaseError}
use zyncbase.Prelude.{
  ◌≡◌, refl, sym, ◌↔◌, inl, inr, ◌≤◌, false, Option, none, List, [], ◌∷◌, length, arith, ltb,
  Bool-cases, ap, ◌∙◌,
}
use zyncbase.Prelude.Result.{Result, ok, err, >>=-eq-ok, Result-cases}
use zyncbase.Prelude.Text.{Text, text}

-- An operation of a batch has the path and the value that the call on its own would send.
abbrev pub IsEncoded : BatchOperation → Value → Type 0
IsEncoded (set_op path v) o =
    (c : StoreCommand) × (p : Value) × (w : Value) × (build_set path (or_null v) none [] ≡ ok c)
    × (c.message ≡ set_request p w)
    × (o ≡ batch_set p w)
IsEncoded (remove_op path) o =
    (c : StoreCommand) × (p : Value) × (build_remove path none [] ≡ ok c)
    × (c.message ≡ field (text "path") p end)
    × (o ≡ arr (cons (str (text "r")) (cons p nil)))

-- Every operation is encoded, in order.
abbrev pub AreEncoded : List BatchOperation → Items → Type 0
AreEncoded [] nil = Unit {0}
AreEncoded (op ∷ ops) (cons o os) = IsEncoded op o × AreEncoded ops os
AreEncoded _ _ = ⊥

set-IsEncoded :
    (path : Address) (v : Option Value) (o : Value) (a : Result ZyncBaseError StoreCommand)
    (b : Result ZyncBaseError Value)
    → a ≡ build_set path (or_null v) none []
    → b ≡ ok o
    → SameSet end a b
    → IsEncoded (set_op path v) o
set-IsEncoded path v o (ok c) (ok o') ea eb (p, w, m, e) =
    let same : o' ≡ o = cc in (c, p, w, sym ea, m, sym same ∙ e)
set-IsEncoded path v o (ok c) (err e) ea eb h = absurd h
set-IsEncoded path v o (err e) (ok o') ea eb h = absurd h
set-IsEncoded path v o (err e) (err e') ea eb h = cc

encoded_set :
    (path : Address) (v : Option Value) (o : Value)
    → IsEncoded (set_op path v) o
    → build_batch_op (set_op path v) ≡ ok o
encoded_set path v o (c, p, w, built, message, e) =
    let same = rw built at (build_batch_op-set path v none []) in
    let (p', w', m, op) = split_SameSet end c (build_batch_op (set_op path v)) same in
    let both : set_request p w ≡ set_request p' w' = sym message ∙ m in
    let one : p ≡ p' = cc in let two : w ≡ w' = cc in op ∙ rw (e, one, two) refl

remove-IsEncoded_at :
    (path : Address) (o : Value) (ss : List Text)
    → normalize_path path ≡ ok ss
    → batch_remove_at ss ≡ ok o
    → IsEncoded (remove_op path) o
unfolding batch_remove_at build_remove remove_at confirm_fields
remove-IsEncoded_at path o [] n h = cc
remove-IsEncoded_at path o (c ∷ []) n h = cc
remove-IsEncoded_at path o (c ∷ id ∷ []) n h = (
  record {
    segments = c ∷ id ∷ [];
    message_type = store_remove;
    message = field (text "path") (path_of (c ∷ id ∷ [])) end;
  },
  path_of (c ∷ id ∷ []),
  rw n refl,
  refl,
  sym cc,
)
remove-IsEncoded_at path o (c ∷ id ∷ p ∷ ps) n h = cc

encoded_remove_at :
    (path : Address) (o : Value) (ss : List Text)
    → normalize_path path ≡ ok ss
    → IsEncoded (remove_op path) o
    → batch_remove_at ss ≡ ok o
unfolding batch_remove_at build_remove remove_at confirm_fields
encoded_remove_at path o [] n (c, p, built, m, e) = cc (rw n at built)
encoded_remove_at path o (x ∷ []) n (c, p, built, m, e) = cc (rw n at built)
encoded_remove_at path o (x ∷ id ∷ []) n (c, p, built, m, e) =
    let made = rw n at built in let one : path_of (x ∷ id ∷ []) ≡ p = cc in rw (e, one) refl
encoded_remove_at path o (x ∷ id ∷ q ∷ qs) n (c, p, built, m, e) = cc (rw n at built)

remove_op_iff :
    (path : Address) (o : Value)
    → (build_batch_op (remove_op path) ≡ ok o) ↔ IsEncoded (remove_op path) o
unfolding build_batch_op build_remove
remove_op_iff path o = elim (Result-cases (normalize_path path)) [
  | inl (e, bad) ↦ (λ h. cc (rw bad at h), λ (c, p, built, m, e'). cc (rw bad at built))
  | inr (ss, good) ↦ (
    λ h. remove-IsEncoded_at path o ss good (rw good at h),
    λ h. rw good (encoded_remove_at path o ss good h),
  )
]

build_batch_op_iff : (op : BatchOperation) (o : Value) → (build_batch_op op ≡ ok o) ↔ IsEncoded op o
build_batch_op_iff (set_op path v) o = (
  λ h. set-IsEncoded path v o _ _ refl h (build_batch_op-set path v none []),
  encoded_set path v o,
)
build_batch_op_iff (remove_op path) o = remove_op_iff path o

encoded_of : (ops : List BatchOperation) (os : Items) → build_ops ops ≡ ok os → AreEncoded ops os
unfolding build_ops
encoded_of [] nil h = tt
encoded_of [] (cons o os) h = cc
encoded_of (op ∷ ops) os h =
    let (o, first, more) = >>=-eq-ok (build_batch_op op) _ os h in
    let (rest, others, whole) = >>=-eq-ok (build_ops ops) _ os more in
    let same : cons o rest ≡ os = cc in
    rw (← same) ((build_batch_op_iff op o).0 first, encoded_of ops rest others)

of_encoded : (ops : List BatchOperation) (os : Items) → AreEncoded ops os → build_ops ops ≡ ok os
unfolding build_ops
of_encoded [] nil h = refl
of_encoded [] (cons o os) h = absurd h
of_encoded (op ∷ ops) nil h = absurd h
of_encoded (op ∷ ops) (cons o os) (first, others) =
    rw ((build_batch_op_iff op o).1 first, of_encoded ops os others) refl

abbrev pub IsBatch : List BatchOperation → Option Confirm → Text → Fields → Type 0
IsBatch ops confirm uuid m =
    (os : Items) × (length ops ≤ 500)
    × AreEncoded ops os
    × (m ≡ field (text "ops") (arr os) (confirmation confirm uuid))

build_batch-IsBatch :
    (ops : List BatchOperation) (confirm : Option Confirm) (uuid : Text) (m : Fields)
    → build_batch ops confirm uuid ≡ ok m
    → IsBatch ops confirm uuid m
unfolding build_batch
build_batch-IsBatch ops confirm uuid m h = elim (Bool-cases (ltb max_batch (length ops))) [
  | inl long ↦ (let g = rw long at h in cc)
  | inr short ↦
      (let g = rw short at h in
        let (os, e, whole) = >>=-eq-ok (build_ops ops) _ m g in
        let made : field (text "ops") (arr os) (confirm_fields confirm uuid) ≡ m = cc in
        (
          os,
          ground arith,
          encoded_of ops os e,
          sym made ∙ ap (field (text "ops") (arr os)) (confirm_fields-confirmation confirm uuid),
        ))
]

of_batch :
    (ops : List BatchOperation) (confirm : Option Confirm) (uuid : Text) (m : Fields)
    → IsBatch ops confirm uuid m
    → build_batch ops confirm uuid ≡ ok m
unfolding build_batch
of_batch ops confirm uuid m (os, few, encoded, shape) =
    let short : ltb max_batch (length ops) ≡ false = ground arith in
    rw (short, of_encoded ops os encoded, shape, confirm_fields-confirmation confirm uuid) refl

-- A batch is accepted exactly if it has at most 500 operations and each of them would be accepted on
-- its own, by `buildSet`, with null for a missing value, or `buildRemove`; its message has the
-- operations in order, each with the path and value of the message on its own, then the confirmation
-- and, if it is "committed", the UUID without dashes as the write id.
pub build_batch_iff :
    (ops : List BatchOperation) (confirm : Option Confirm) (uuid : Text) (m : Fields)
    → (build_batch ops confirm uuid ≡ ok m) ↔ IsBatch ops confirm uuid m
build_batch_iff ops confirm uuid m =
    (build_batch-IsBatch ops confirm uuid m, of_batch ops confirm uuid m)
