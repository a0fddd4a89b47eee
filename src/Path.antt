-- ===== src/Path.antt =====
-- sdk/typescript/src/path.ts: data addresses, and flat keys joined by "__".
pub mod Split
pub mod Normalize
pub mod Deep
use zyncbase.Prelude.{
  ℕ, Bool, true, false, ◌&&◌, Option, none, some, List, [], ◌∷◌, ◌++◌, ◌==◌, if◌then◌else◌,
}
use zyncbase.Prelude.Result.{Result, ok, err}
use zyncbase.Errors.{ZyncBaseError, new_error, invalid_path, client}
use zyncbase.Json.{Value, bytes, obj, Fields, end, field, get_prop, set_prop, assign}
use zyncbase.Prelude.Text.{Text, text}

pub data Address : Type 0 where
  dotted : Text → Address
  segments : List Text → Address

abbrev pub cons_head : ℕ → List Text → List Text
cons_head c [] = (c ∷ []) ∷ []
cons_head c (s ∷ ss) = (c ∷ s) ∷ ss

-- `s.split(".")`: for a separator of one code unit.
unfoldable pub split_on : ℕ → Text → List Text
split_on sep [] = [] ∷ []
split_on sep (c ∷ s) = let rest = split_on sep s in if c == sep then [] ∷ rest else cons_head c rest

-- `segments.join(sep)`
unfoldable pub join : Text → List Text → Text
join sep [] = []
join sep (s ∷ []) = s
join sep (s ∷ s' ∷ ss) = s ++ (sep ++ join sep (s' ∷ ss))

abbrev pub delimiter : Text
delimiter = b'_' ∷ b'_' ∷ []

-- `joinFieldPath`
unfoldable pub join_field_path : List Text → Text
unfolding join
join_field_path ss = join delimiter ss

-- `splitFieldPath`: `flat.split("__")`, which looks for the separator from the left.
unfoldable pub split_field_path : Text → List Text
split_field_path [] = [] ∷ []
split_field_path (c ∷ []) = (c ∷ []) ∷ []
split_field_path (c ∷ d ∷ s) =
    let cut = [] ∷ split_field_path s in
    let on = cons_head c (split_field_path (d ∷ s)) in if c == b'_' && d == b'_' then cut else on

abbrev pub path_error : Text → ZyncBaseError
path_error message = new_error message invalid_path client false

abbrev pub has_empty : List Text → Bool
has_empty [] = false
has_empty ([] ∷ ss) = true
has_empty ((c ∷ s) ∷ ss) = has_empty ss

abbrev pub segments_of : Address → List Text
segments_of (dotted s) = split_on b'.' s
segments_of (segments ss) = ss

abbrev pub detail_of : Address → Text
detail_of (dotted s) = text ": \"" ++ (s ++ text "\"")
detail_of (segments ss) = []

abbrev pub check_segments : Address → List Text → Result ZyncBaseError (List Text)
check_segments path [] = err (path_error (text "Path must not be empty"))
check_segments path (s ∷ ss) =
    if has_empty (s ∷ ss)
    then err (path_error (text "Path contains empty segment" ++ detail_of path))
    else ok (s ∷ ss)

-- `normalizePath`
unfoldable pub normalize_path : Address → Result ZyncBaseError (List Text)
unfolding split_on new_error
normalize_path path = check_segments path (segments_of path)

-- `prefix ? joinFieldPath(prefix, key) : key`
abbrev pub full_key : Text → Text → Text
full_key [] key = key
full_key (c ∷ s) key = join_field_path ((c ∷ s) ∷ key ∷ [])

-- The loop of `flatten` over the properties, with its `result`.
unfoldable pub flatten_into : Fields → Text → Fields → Fields
unfolding join_field_path set_prop assign
flatten_into result prefix end = result
flatten_into result prefix (field key (obj fs) rest) =
    flatten_into (assign result (flatten_into end (full_key prefix key) fs)) prefix rest
flatten_into result prefix (field key v rest) =
    flatten_into (set_prop (full_key prefix key) v result) prefix rest

-- `flatten`
unfoldable pub flatten : Fields → Text → Fields
unfolding flatten_into
flatten fs prefix = flatten_into end prefix fs

-- Where the loop of `setDeepProperty` goes on: the child if it is a plain object, a new object if
-- it is missing or not an object; `none` for a byte array, in which properties are not modelled.
abbrev pub child_fields : Option Value → Option Fields
child_fields (some (obj fs)) = some fs
child_fields (some (bytes bs)) = none
child_fields _ = some end

-- `setDeepProperty`
unfoldable pub set_deep : Fields → List Text → Value → Fields
unfolding get_prop set_prop
set_deep fs [] v = fs
set_deep fs (p ∷ []) v = set_prop p v fs
set_deep fs (p ∷ q ∷ ps) v = elim (child_fields (get_prop p fs)) [
  | none ↦ fs
  | some child ↦ set_prop p (obj (set_deep child (q ∷ ps) v)) fs
]

-- One step of `getDeepProperty`: `undefined` below anything but an object.
abbrev pub child_of : Text → Value → Option Value
child_of p (obj fs) = get_prop p fs
child_of p _ = none

-- `getDeepProperty`
unfoldable pub get_deep : Value → List Text → Option Value
unfolding get_prop
get_deep v [] = some v
get_deep v (p ∷ ps) = elim (child_of p v) [ none ↦ none | some w ↦ get_deep w ps ]

-- The loop of `unflatten`.
unfoldable pub unflatten_into : Fields → Fields → Fields
unfolding set_deep split_field_path
unflatten_into result end = result
unflatten_into result (field key v flat) =
    unflatten_into (set_deep result (split_field_path key) v) flat

-- `unflatten`
unfoldable pub unflatten : Fields → Fields
unfolding unflatten_into
unflatten flat = unflatten_into end flat
