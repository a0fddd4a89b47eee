-- ===== src/StoreWire/Asked.antt =====
-- What a filter asks for, by the names of the operators, and what the server makes of a message.
use zyncbase.Json.{
  Value, bool, arr, obj, Items, nil, cons, Fields, end, field, get_prop, remove_prop,
}
use zyncbase.Path.{join, delimiter, split_on}
use zyncbase.StoreWire.Where.{Condition, Filter}
use zyncbase.Prelude.{
  ◌≡◌, ◌≢◌, Bool, true, false, not, ◌&&◌, ◌||◌, Option, none, some, List, [], ◌∷◌, ◌++◌,
  if◌then◌else◌, get_elem?, ◌+◌, suc, ℕ,
}
use zyncbase.Prelude.Text.{Text, text, text_eq}

-- The operators of the query language, in the order of their codes.
abbrev pub operators : List Text
operators =
    text "eq"
    ∷ text "ne"
    ∷ text "gt"
    ∷ text "lt"
    ∷ text "gte"
    ∷ text "lte"
    ∷ text "contains"
    ∷ text "startsWith"
    ∷ text "endsWith"
    ∷ text "in"
    ∷ text "notIn"
    ∷ text "isNull"
    ∷ text "isNotNull"
    ∷ []

abbrev pub listed : Text → List Text → Bool
listed op [] = false
listed op (name ∷ names) = text_eq op name || listed op names

abbrev pub about_null : Text → Bool
about_null op = text_eq op (text "isNull") || text_eq op (text "isNotNull")

-- A name is not empty and holds no dot; a test for null is asked for with true.
abbrev pub IsName : Text → Value → Type 0
IsName key v = (key ≢ []) × (split_on b'.' key ≡ key ∷ []) × (about_null key ≡ true → v ≡ bool true)

-- So are all properties, nested ones included.
abbrev pub ArePlain : Fields → Type 0
ArePlain end = Unit {0}
ArePlain (field key (obj fs) rest) = IsName key (obj fs) × ArePlain fs × ArePlain rest
ArePlain (field key v rest) = IsName key v × ArePlain rest

-- A test for null that is asked for with false is its opposite.
abbrev pub as_asked : Value → Bool → Bool
as_asked (bool false) b = not b
as_asked v b = b

abbrev pub has_listed : Fields → Bool
has_listed end = false
has_listed (field op v fs) = listed op operators || has_listed fs

-- How many conditions the properties are: one for each value and for each operator.
abbrev pub operators_in : Fields → ℕ
operators_in end = 0
operators_in (field op v fs) =
    let rest = operators_in fs in if listed op operators then suc rest else rest

unfoldable pub conditions_in : Fields → ℕ
conditions_in end = 0
conditions_in (field key (obj fs) rest) =
    let below = conditions_in fs in
    (if has_listed fs then operators_in fs else below) + conditions_in rest
conditions_in (field key v rest) = suc (conditions_in rest)

-- A filter's `or`, if it is an array: objects that are a single condition each.
abbrev pub AreSingle : Items → Type 0
AreSingle nil = Unit {0}
AreSingle (cons (obj fs) vs) = ArePlain fs × (conditions_in fs ≡ 1) × AreSingle vs
AreSingle (cons v vs) = ⊥

abbrev pub HasSingleAlternatives : Option Value → Type 0
HasSingleAlternatives (some (arr clauses)) = AreSingle clauses
HasSingleAlternatives _ = Unit {0}

-- `test` is a comparison of a field, by the name of the operator, and `is_null` tells of a field
-- whether it is null.
module _ (test : Text → Text → Value → Bool) (is_null : Text → Bool) where
  -- The server's reading of a condition with an operator.
  abbrev pub reads : Text → Text → Option Value → Bool
  reads key op none =
      if text_eq op (text "isNull")
      then is_null key
      else if text_eq op (text "isNotNull")
      then not (is_null key)
      else false
  reads key op (some v) = if about_null op then false else test key op v

  abbrev pub named : Text → Option Text → Option Value → Bool
  named key none v = false
  named key (some op) v = reads key op v

  abbrev pub meets : Condition → Bool
  meets c = named c.key (get_elem? operators c.op) c.operand

  abbrev pub all_meet : List Condition → Bool
  all_meet [] = true
  all_meet (c ∷ cs) = meets c && all_meet cs

  abbrev pub any_meet : List Condition → Bool
  any_meet [] = false
  any_meet (c ∷ cs) = meets c || any_meet cs

  abbrev pub one_meets : List Condition → Bool
  one_meets [] = true
  one_meets (c ∷ cs) = any_meet (c ∷ cs)

  -- The filter that is sent: every condition holds, and one of the alternatives if there are any.
  abbrev pub passes : Filter → Bool
  passes f = all_meet f.conditions && one_meets f.or_conditions

  abbrev pub asks : Text → Text → Value → Bool
  asks key op v =
      if text_eq op (text "isNull")
      then as_asked v (is_null key)
      else if text_eq op (text "isNotNull")
      then as_asked v (not (is_null key))
      else test key op v

  -- Every operator of one field holds; other properties beside operators say nothing.
  abbrev pub operators_hold : Text → Fields → Bool
  operators_hold key end = true
  operators_hold key (field op v fs) =
      (if listed op operators then asks key op v else true) && operators_hold key fs

  -- Every property holds: a value asks for equality, an object with an operator for its operators,
  -- and another object is about the fields below. A name with dots is a path.
  unfoldable pub satisfies : List Text → Fields → Bool
  unfolding join split_on
  satisfies path end = true
  satisfies path (field key (obj fs) rest) =
      let below = satisfies (path ++ split_on b'.' key) fs in
      let here = operators_hold (join delimiter (path ++ split_on b'.' key)) fs in
      (if has_listed fs then here else below) && satisfies path rest
  satisfies path (field key v rest) =
      test (join delimiter (path ++ split_on b'.' key)) (text "eq") v && satisfies path rest

  -- The filter that was asked for: every property is satisfied, and so is one of the objects under
  -- `or` if there are any.
  unfoldable pub any_satisfied : Items → Bool
  unfolding satisfies
  any_satisfied nil = false
  any_satisfied (cons (obj fs) vs) = satisfies [] fs || any_satisfied vs
  any_satisfied (cons v vs) = any_satisfied vs

  unfoldable pub alternative_holds : Option Value → Bool
  unfolding any_satisfied
  alternative_holds (some (arr (cons v vs))) = any_satisfied (cons v vs)
  alternative_holds _ = true

  unfoldable pub asked : Fields → Bool
  unfolding satisfies alternative_holds get_prop remove_prop
  asked whole =
      satisfies [] (remove_prop (text "or") whole) && alternative_holds (get_prop (text "or") whole)
