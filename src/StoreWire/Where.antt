-- ===== src/StoreWire/Where.antt =====
-- The filters of store_wire.ts: `encodeWhereClause` and what it calls. `op in OP_CODES` is modelled
-- for the listed operators; the names that every JavaScript object inherits are not.
use zyncbase.Prelude.{
  ℕ, suc, Bool, true, false, ◌||◌, Option, none, some, List, [], ◌∷◌, ◌++◌, if◌then◌else◌,
}
use zyncbase.Prelude.Int.{pos}
use zyncbase.Prelude.Text.{Text, text, text_eq}
use zyncbase.Prelude.Result.{Result, ok, err, ◌>>=◌}
use zyncbase.Json.{
  Value, null, bool, num, str, bytes, arr, obj, Items, nil, cons, Fields, end, field, get_prop,
  remove_prop,
}
use zyncbase.Errors.{Thrown, plain_error}
use zyncbase.Path.{full_key}
use zyncbase.Wire.{decimal}
use zyncbase.Wire.Encode.{byte_fields}

-- `WireCondition`: a field, the code of an operator and, but for two operators, an operand.
pub record Condition : Type 0 where
  pub key : Text
  pub op : ℕ
  pub operand : Option Value

-- `OP_CODES`
unfoldable pub op_code : Text → Option ℕ
unfolding text_eq
op_code op =
    if text_eq op (text "eq")
    then some 0
    else if text_eq op (text "ne")
    then some 1
    else if text_eq op (text "gt")
    then some 2
    else if text_eq op (text "lt")
    then some 3
    else if text_eq op (text "gte")
    then some 4
    else if text_eq op (text "lte")
    then some 5
    else if text_eq op (text "contains")
    then some 6
    else if text_eq op (text "startsWith")
    then some 7
    else if text_eq op (text "endsWith")
    then some 8
    else if text_eq op (text "in")
    then some 9
    else if text_eq op (text "notIn")
    then some 10
    else if text_eq op (text "isNull")
    then some 11
    else if text_eq op (text "isNotNull")
    then some 12
    else none

-- `op === "isNull" || op === "isNotNull"`
unfoldable pub is_null_test : Text → Bool
unfolding text_eq
is_null_test op = text_eq op (text "isNull") || text_eq op (text "isNotNull")

-- `encodeOperatorObject`: the operators among the properties, in order.
unfoldable pub encode_operator_object : Text → Fields → List Condition
unfolding op_code
encode_operator_object key end = []
encode_operator_object key (field op v fs) =
    let rest = encode_operator_object key fs in
    elim (op_code op) [
      | none ↦ rest
      | some code ↦
          record { key = key; op = code; operand = if is_null_test op then none else some v } ∷ rest
    ]

-- `opKeys.length > 0`
unfoldable pub has_operator : Fields → Bool
unfolding op_code
has_operator end = false
has_operator (field op v fs) = elim (op_code op) [ none ↦ has_operator fs | some code ↦ true ]

abbrev pub equals : Text → Value → Condition
equals key v = record { key = key; op = 0; operand = some v }

-- `encodeConditionObject`
unfoldable pub encode_condition_object : Fields → Text → List Condition
unfolding has_operator encode_operator_object
encode_condition_object end prefix = []
encode_condition_object (field key (obj fs) rest) prefix =
    let nested = encode_condition_object fs (full_key prefix key) in
    (if has_operator fs then encode_operator_object (full_key prefix key) fs else nested)
    ++ encode_condition_object rest prefix
encode_condition_object (field key v rest) prefix =
    equals (full_key prefix key) v ∷ encode_condition_object rest prefix

-- `Object.entries(array)`, and of a text, whose units are texts.
unfoldable pub item_fields : ℕ → Items → Fields
unfolding decimal
item_fields i nil = end
item_fields i (cons v vs) = field (decimal i) v (item_fields (suc i) vs)

unfoldable pub unit_fields : ℕ → Text → Fields
unfolding decimal
unit_fields i [] = end
unit_fields i (c ∷ s) = field (decimal i) (str (c ∷ [])) (unit_fields (suc i) s)

-- `Object.entries(clause)`, which throws for `null`.
unfoldable pub entries_of : Value → Result Thrown Fields
unfolding item_fields unit_fields byte_fields
entries_of null = err (plain_error (text "Cannot convert undefined or null to object"))
entries_of (bool b) = ok end
entries_of (num n) = ok end
entries_of (str s) = ok (unit_fields 0 s)
entries_of (bytes bs) = ok (byte_fields 0 bs)
entries_of (arr vs) = ok (item_fields 0 vs)
entries_of (obj fs) = ok fs

-- `extractOrConditions`
unfoldable pub extract_or_conditions : Items → Result Thrown (List Condition)
unfolding entries_of encode_condition_object
extract_or_conditions nil = ok []
extract_or_conditions (cons clause clauses) = do
  fs ← entries_of clause
  rest ← extract_or_conditions clauses
  ok (encode_condition_object fs [] ++ rest)

-- The condition as it stands in the message.
abbrev pub condition_value : Condition → Value
condition_value c =
    arr (
      cons (str c.key)
        (cons (num (pos c.op)) (elim c.operand [ none ↦ nil | some v ↦ cons v nil ])))

abbrev pub condition_items : List Condition → Items
condition_items [] = nil
condition_items (c ∷ cs) = cons (condition_value c) (condition_items cs)

-- A property that is set only for a list that is not empty.
abbrev pub with_conditions : Text → List Condition → Fields → Fields
with_conditions name [] more = more
with_conditions name (c ∷ cs) more = field name (arr (condition_items (c ∷ cs))) more

-- The conditions of the `or` of a filter, if it is an array.
unfoldable pub or_of : Option Value → Result Thrown (List Condition)
unfolding extract_or_conditions
or_of (some (arr clauses)) = extract_or_conditions clauses
or_of _ = ok []

-- The result of `encodeWhereClause`; an empty list is a property that is not set.
pub record Filter : Type 0 where
  pub conditions : List Condition
  pub or_conditions : List Condition

-- `encodeWhereClause`, from `{ or, ...rest } = where`.
unfoldable pub encode_where_clause : Fields → Result Thrown Filter
unfolding get_prop remove_prop encode_condition_object or_of
encode_where_clause whole = do
  alternatives ← or_of (get_prop (text "or") whole)
  ok (record {
    conditions = encode_condition_object (remove_prop (text "or") whole) [];
    or_conditions = alternatives;
  })

abbrev pub filter_message : Filter → Fields
filter_message f =
    with_conditions (text "conditions") f.conditions
      (with_conditions (text "orConditions") f.or_conditions end)
