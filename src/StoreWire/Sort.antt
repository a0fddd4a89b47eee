-- ===== src/StoreWire/Sort.antt =====
-- The order of a query in store_wire.ts: `encodeOrderBy`, for any value, as its checks are for input
-- that the types do not allow. The set `seen` is the list of the encoded fields so far.
use zyncbase.Json.{num, Value, str, arr, obj, bytes, Items, nil, cons, Fields, end, field}
use zyncbase.StoreWire.{client_error}
use zyncbase.Prelude.{
  ℕ, suc, Bool, true, false, ◌||◌, Option, none, some, List, [], ◌∷◌, ◌++◌, ltb, if◌then◌else◌,
  ◌&&◌,
}
use zyncbase.Prelude.Int.{pos}
use zyncbase.Prelude.Text.{Text, text, text_eq}
use zyncbase.Prelude.Result.{Result, ok, err, ◌>>=◌}
use zyncbase.Errors.{ZyncBaseError, invalid_message}
use zyncbase.Path.{split_on, join, delimiter}
use zyncbase.Wire.{decimal}
use zyncbase.Wire.Encode.{byte_fields}

-- `[encodedField, descFlag]`
pub record WireOrder : Type 0 where
  pub key : Text
  pub desc : Bool

-- `invalidSortError`
unfoldable pub invalid_sort_error : Text → ZyncBaseError
invalid_sort_error message = client_error message invalid_message

unfoldable pub clause_error : ℕ → Text → ZyncBaseError
unfolding invalid_sort_error decimal
clause_error i message = invalid_sort_error (text "orderBy clause " ++ (decimal i ++ message))

-- `field.split(".").join("__")`
unfoldable pub encode_field : Text → Text
unfolding split_on join
encode_field name = join delimiter (split_on b'.' name)

-- `seen.has(field)`
unfoldable pub includes : Text → List Text → Bool
unfolding text_eq
includes s [] = false
includes s (t ∷ ts) = text_eq s t || includes s ts

-- `dir === "desc"`, where `dir` is one of the two directions.
unfoldable pub direction : Value → Option Bool
unfolding text_eq
direction (str s) =
    if text_eq s (text "asc")
    then some false
    else if text_eq s (text "desc")
    then some true
    else none
direction v = none

-- The clause whose only property is given.
unfoldable pub encode_single : ℕ → List Text → Text → Value → Result ZyncBaseError WireOrder
unfolding encode_field includes
encode_single i seen name dir = elim (direction dir) [
  | none ↦ err (clause_error i (text " direction must be \"asc\" or \"desc\""))
  | some desc ↦
      if includes (encode_field name) seen
      then err (clause_error i (text " duplicates field \"" ++ (name ++ text "\"")))
      else ok (record { key = encode_field name; desc = desc })
]

unfoldable pub encode_clause_fields : ℕ → List Text → Fields → Result ZyncBaseError WireOrder
unfolding encode_single
encode_clause_fields i seen (field name dir end) = encode_single i seen name dir
encode_clause_fields i seen fs =
    err (clause_error i (text " must contain exactly one field and direction"))

-- `encodeSortClause`
unfoldable pub encode_sort_clause : ℕ → List Text → Value → Result ZyncBaseError WireOrder
unfolding byte_fields
encode_sort_clause i seen (obj fs) = encode_clause_fields i seen fs
encode_sort_clause i seen (bytes bs) = encode_clause_fields i seen (byte_fields 0 bs)
encode_sort_clause i seen v = err (clause_error i (text " must be an object"))

-- The loop `orderBy.map(...)`.
unfoldable pub encode_clauses : ℕ → List Text → Items → Result ZyncBaseError (List WireOrder)
unfolding encode_sort_clause
encode_clauses i seen nil = ok []
encode_clauses i seen (cons clause clauses) = do
  e ← encode_sort_clause i seen clause
  rest ← encode_clauses (suc i) (e.key ∷ seen) clauses
  ok (e ∷ rest)

unfoldable pub is_unique_field : Text → Bool
unfolding text_eq
is_unique_field s = text_eq s (text "id") || text_eq s (text "created_at")

-- The first unique field, if it is not that of the final clause.
unfoldable pub misplaced : List WireOrder → Option Text
misplaced [] = none
misplaced (e ∷ []) = none
misplaced (e ∷ e' ∷ es) =
    let rest = misplaced (e' ∷ es) in if is_unique_field e.key then some e.key else rest

unfoldable pub check_unique : List WireOrder → Result ZyncBaseError (List WireOrder)
unfolding misplaced invalid_sort_error
check_unique es = elim (misplaced es) [
  | none ↦ ok es
  | some name ↦
      err (
        invalid_sort_error
          (text "orderBy field \"" ++ (name ++ text "\" must be the final clause")))
]

unfoldable pub item_count : Items → ℕ
item_count nil = 0
item_count (cons v vs) = suc (item_count vs)

unfoldable pub count_error : ZyncBaseError
unfolding invalid_sort_error
count_error = invalid_sort_error (text "orderBy requires between 1 and 8 clauses")

unfoldable pub has_valid_count : Items → Bool
unfolding item_count
has_valid_count vs = ltb 0 (item_count vs) && ltb (item_count vs) 9

-- `encodeOrderBy`
unfoldable pub encode_order_by : Value → Result ZyncBaseError (List WireOrder)
unfolding encode_clauses invalid_sort_error
encode_order_by (arr clauses) =
    if has_valid_count clauses
    then encode_clauses 0 [] clauses >>= check_unique
    else err count_error
encode_order_by v = err (invalid_sort_error (text "orderBy must be an array of sort clauses"))

-- The clauses as they stand in the message.
abbrev pub order_items : List WireOrder → Items
order_items [] = nil
order_items (e ∷ es) =
    cons (arr (cons (str e.key) (cons (num (if e.desc then pos 1 else pos 0)) nil)))
      (order_items es)
