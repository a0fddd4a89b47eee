-- ===== src/Json/Laws.antt =====
-- Reading a property after a write, and objects without repeated keys.
use zyncbase.Json.{assign, Value, Fields, end, field, get_prop, set_prop}
use zyncbase.Prelude.{
  ◌≡◌, refl, ◌≢◌, none, some, arith, if◌then◌else◌, inl, inr, Bool-cases, ◌∙◌, Option,
}
use zyncbase.Prelude.Text.{Text, text_eq, text_eq_iff, text_eq_refl}

pub get_prop-set_prop :
    (k j : Text) (v : Value) (fs : Fields)
    → get_prop j (set_prop k v fs) ≡ (if text_eq k j then some v else get_prop j fs)
unfolding get_prop set_prop
get_prop-set_prop k j v end = refl
get_prop-set_prop k j v (field i w fs) =
    ground (arith, text_eq_iff k j, text_eq_iff i k, text_eq_iff i j, get_prop-set_prop k j v fs)

pub get_prop-set_prop_self :
    (k : Text) (v : Value) (fs : Fields) → get_prop k (set_prop k v fs) ≡ some v
get_prop-set_prop_self k v fs = rw (get_prop-set_prop, text_eq_refl k)

pub get_prop-set_prop_ne :
    (k j : Text) (v : Value) (fs : Fields) → k ≢ j → get_prop j (set_prop k v fs) ≡ get_prop j fs
get_prop-set_prop_ne k j v fs h = rw get_prop-set_prop (ground (arith, text_eq_iff k j))

-- No key twice, as in every JavaScript object.
abbrev pub IsFresh : Text → Fields → Type 0
IsFresh k end = Unit {0}
IsFresh k (field j v fs) = (j ≢ k) × IsFresh k fs

abbrev pub HasDistinctKeys : Fields → Type 0
HasDistinctKeys end = Unit {0}
HasDistinctKeys (field k v fs) = IsFresh k fs × HasDistinctKeys fs

pub IsFresh-set_prop :
    (k j : Text) (v : Value) (fs : Fields) → j ≢ k → IsFresh k fs → IsFresh k (set_prop j v fs)
unfolding set_prop
IsFresh-set_prop k j v end ne h = (ne, tt)
IsFresh-set_prop k j v (field i w fs) ne (h, hs) = elim (Bool-cases (text_eq i j)) [
  | inl same ↦ rw same (h, hs)
  | inr other ↦ rw other (h, IsFresh-set_prop k j v fs ne hs)
]

pub set_prop-HasDistinctKeys :
    (k : Text) (v : Value) (fs : Fields) → HasDistinctKeys fs → HasDistinctKeys (set_prop k v fs)
unfolding set_prop
set_prop-HasDistinctKeys k v end d = (tt, tt)
set_prop-HasDistinctKeys k v (field i w fs) (f, d) = elim (Bool-cases (text_eq i k)) [
  | inl same ↦ rw same (f, d)
  | inr other ↦ rw other (
    IsFresh-set_prop i k v fs (λ e. ground (arith, text_eq_iff i k)) f,
    set_prop-HasDistinctKeys k v fs d,
  )
]

-- On an object without repeated keys, a fresh key is absent.
pub get_prop_of_IsFresh : (k : Text) (fs : Fields) → IsFresh k fs → get_prop k fs ≡ none
unfolding get_prop
get_prop_of_IsFresh k end h = refl
get_prop_of_IsFresh k (field j v fs) (ne, h) =
    ground (arith, text_eq_iff j k, get_prop_of_IsFresh k fs h)

-- The value of the first, or else that of the second.
abbrev pub or_old : Option Value → Option Value → Option Value
or_old none old = old
or_old (some v) old = some v

get_prop-IsFresh : (k : Text) (fs : Fields) → IsFresh k fs → get_prop k fs ≡ none
unfolding get_prop
get_prop-IsFresh k end h = refl
get_prop-IsFresh k (field j v fs) (ne, h) = ground (arith, text_eq_iff j k, get_prop-IsFresh k fs h)

-- `{ ...base, ...over }` has the properties of `over`, and else those of `base`.
pub get_prop-assign :
    (k : Text) (base over : Fields)
    → HasDistinctKeys over
    → get_prop k (assign base over) ≡ or_old (get_prop k over) (get_prop k base)
unfolding assign get_prop
get_prop-assign k base end h = refl
get_prop-assign k base (field j v over) (alone, others) =
    get_prop-assign k (set_prop j v base) over others ∙ elim (Bool-cases (text_eq j k)) [
      | inl same ↦
          let e : j ≡ k = (text_eq_iff j k).0 same in
          let gone : get_prop k over ≡ none = get_prop-IsFresh k over (rw e at alone) in
          rw (get_prop-set_prop j k v base, gone, same) refl
      | inr other ↦ rw (get_prop-set_prop j k v base, other) refl
    ]
