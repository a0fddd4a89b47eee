-- ===== src/Subscriptions/Projection.antt =====
-- `store.listen` in subscriptions.ts: the value that a delta means for one document or one field of
-- it, and the equality that keeps an unchanged field from being delivered again.
use zyncbase.Json.{
  Value, null, bool, num, str, bytes, arr, obj, Items, nil, cons, Fields, end, field, get_prop,
  set_prop, size,
}
use zyncbase.Path.{get_deep, join_field_path, unflatten, split_on}
use zyncbase.Prelude.Int.{ℤ, pos, negsuc}
use zyncbase.Subscriptions.Views.{Op, set_op, remove_op}
use zyncbase.Prelude.{
  ◌⊎◌, inl, inr, Bool, true, false, not, ◌&&◌, Option, none, some, List, [], ◌∷◌, ◌++◌, ◌==◌,
  if◌then◌else◌, length, drop,
}
use zyncbase.Prelude.Text.{Text, text, text_eq}

-- `ListenProjection`: the field, or `none` for the whole document.
abbrev pub ListenProjection : Type 0
ListenProjection = Option Text

abbrev pub join_dots : List Text → Text
join_dots [] = []
join_dots (s ∷ []) = s
join_dots (s ∷ t ∷ ss) = s ++ (text "." ++ join_dots (t ∷ ss))

-- `createListenProjection`
unfoldable pub create_listen_projection : List Text → ListenProjection
create_listen_projection segments =
    if length segments == 2 then none else some (join_dots (drop 2 segments))

-- The value of an op as it stands in the message, for the fallback of `_project`.
abbrev pub texts : List Text → Items
texts [] = nil
texts (s ∷ ss) = cons (str s) (texts ss)

abbrev pub op_value : Op → Value
op_value (set_op path v) = obj (
    field (text "op") (str (text "set"))
      (field (text "path") (arr (texts path)) (field (text "value") v end)))
op_value (remove_op path) =
    obj (field (text "op") (str (text "remove")) (field (text "path") (arr (texts path)) end))

abbrev pub ops_value : List Op → Items
ops_value [] = nil
ops_value (op ∷ ops) = cons (op_value op) (ops_value ops)

-- `_applyRecordOp` at a path with or without segments behind the id: a value to return at once, or
-- the flat record with one more field.
abbrev pub record_op : Fields → List Text → Value → Fields ⊎ Value
unfolding set_prop join_field_path
record_op flat [] v = inr v
record_op flat (s ∷ ss) v = inl (set_prop (join_field_path (s ∷ ss)) v flat)

unfoldable pub apply_record_op : Fields → Op → Fields ⊎ Value
unfolding record_op
apply_record_op flat (set_op path v) = record_op flat (drop 2 path) v
apply_record_op flat (remove_op path) = record_op flat (drop 2 path) null

-- `_reconstructRecord`, from a flat record.
unfoldable pub reconstruct_from : Fields → List Op → Value
unfolding apply_record_op unflatten
reconstruct_from flat [] = obj (unflatten flat)
reconstruct_from flat (op ∷ ops) = elim (apply_record_op flat op) [
  | inl more ↦ reconstruct_from more ops
  | inr v ↦ v
]

unfoldable pub reconstruct_record : List Op → Value
unfolding reconstruct_from
reconstruct_record ops = reconstruct_from end ops

abbrev pub value_or_null : Option Value → Value
value_or_null none = null
value_or_null (some v) = v

-- `_project`; `none` for the projection `null`.
unfoldable pub project : Option ListenProjection → List Op → Value
unfolding reconstruct_record get_deep split_on
project none ops = arr (ops_value ops)
project (some none) ops = reconstruct_record ops
project (some (some name)) ops =
    value_or_null (get_deep (reconstruct_record ops) (split_on b'.' name))

abbrev pub bool_eq : Bool → Bool → Bool
bool_eq true b = b
bool_eq false b = not b

abbrev pub int_eq : ℤ → ℤ → Bool
int_eq (pos n) (pos k) = n == k
int_eq (negsuc n) (negsuc k) = n == k
int_eq _ _ = false

-- `bytesEqual` is `text_eq` for the lists of bytes. `a === b` holds for equal scalars; two objects
-- of the model that are equal need not be identical, and are compared by content.
unfoldable mutual
  unfolding get_prop size

  -- `valuesEqual`
  pub values_equal : Value → Value → Bool
  values_equal null null = true
  values_equal (bool a) (bool b) = bool_eq a b
  values_equal (num a) (num b) = int_eq a b
  values_equal (str a) (str b) = text_eq a b
  values_equal (bytes a) (bytes b) = text_eq a b
  values_equal (arr a) (arr b) = arrays_equal a b
  values_equal (obj a) (obj b) = size a == size b && fields_equal a b
  values_equal _ _ = false

  -- `arraysEqual`
  pub arrays_equal : Items → Items → Bool
  arrays_equal nil nil = true
  arrays_equal (cons v vs) (cons w ws) = values_equal v w && arrays_equal vs ws
  arrays_equal _ _ = false

  -- The loop of `recordsEqual` over the keys of `a`.
  pub fields_equal : Fields → Fields → Bool
  fields_equal end b = true
  fields_equal (field k v a) b = elim (get_prop k b) [
    | none ↦ false
    | some w ↦ values_equal v w && fields_equal a b
  ]
