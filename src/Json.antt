-- ===== src/Json.antt =====
-- `JsonValue` of sdk/typescript/src/types.ts. Numbers are integers (no fractions, infinities or NaN).
-- A plain object is the list of its properties in insertion order; JavaScript would put keys that
-- are array indices first. An item list and a property list are types of their own.
pub mod Laws
use zyncbase.Prelude.{ℕ, Bool, Option, none, some, List, [], ◌∷◌, if◌then◌else◌}
use zyncbase.Prelude.Int.{ℤ}
use zyncbase.Prelude.Text.{Text, text_eq}

mutual
  pub data Value : Type 0 where
    null : Value
    bool : Bool → Value
    num : ℤ → Value
    str : Text → Value
    bytes : List ℕ → Value
    arr : Items → Value
    obj : Fields → Value

  pub data Items : Type 0 where
    nil : Items
    cons : Value → Items → Items

  pub data Fields : Type 0 where
    end : Fields
    field : Text → Value → Fields → Fields

-- `obj[key]`; `none` stands for `undefined`.
unfoldable pub get_prop : Text → Fields → Option Value
get_prop k end = none
get_prop k (field j v fs) = if text_eq j k then some v else get_prop k fs

-- `obj[key] = v`: an existing property keeps its place, a new one comes last.
unfoldable pub set_prop : Text → Value → Fields → Fields
set_prop k v end = field k v end
set_prop k v (field j w fs) = if text_eq j k then field j v fs else field j w (set_prop k v fs)

-- `delete obj[key]`, or the rest of a destructuring `{ key, ...rest }`.
unfoldable pub remove_prop : Text → Fields → Fields
remove_prop k end = end
remove_prop k (field j w fs) = if text_eq j k then fs else field j w (remove_prop k fs)

-- `Object.keys(obj)`
unfoldable pub keys : Fields → List Text
keys end = []
keys (field k v fs) = k ∷ keys fs

-- `{ ...base, ...over }`, or the loop `for (key of keys(over)) base[key] = over[key]`.
unfoldable pub assign : Fields → Fields → Fields
unfolding set_prop
assign base end = base
assign base (field k v over) = assign (set_prop k v base) over

unfoldable pub size : Fields → ℕ
size end = 0
size (field k v fs) = Prim.Native.Nat.suc (size fs)

-- The items of an array as a list.
unfoldable pub items : Items → List Value
items nil = []
items (cons v vs) = v ∷ items vs

unfoldable pub from_items : List Value → Items
from_items [] = nil
from_items (v ∷ vs) = cons v (from_items vs)
