-- ===== src/StoreWire/Operators.antt =====
-- The operators of the filters, by their codes and by their names.
use zyncbase.StoreWire.Asked.{operators, listed, has_listed, operators_in}
use zyncbase.StoreWire.Where.{op_code, encode_operator_object, has_operator}
use zyncbase.Json.{Fields, end, field}
use zyncbase.Prelude.{
  ◌≡◌, refl, sym, inl, inr, ℕ, true, false, Option, none, some, List, [], ◌∷◌, length, arith,
  if◌then◌else◌, Option-cases, ◌∙◌, suc, ◌+◌, ap, Bool-cases, get_elem?,
}
use zyncbase.Prelude.Text.{Text, text_eq, text_eq_iff}

-- The code of an operator is its place in the list.
position : ℕ → Text → List Text → Option ℕ
position i op [] = none
position i op (name ∷ names) = if text_eq op name then some i else position (suc i) op names

op_code-position : (op : Text) → op_code op ≡ position 0 op operators
unfolding op_code position
op_code-position op = refl

position-listed :
    (i : ℕ) (op : Text) (names : List Text) → position i op names ≡ none → listed op names ≡ false
unfolding position
position-listed i op [] h = refl
position-listed i op (name ∷ names) h = elim (Bool-cases (text_eq op name)) [
  | inl same ↦ cc (rw same at h)
  | inr other ↦ rw other (position-listed (suc i) op names (rw other at h))
]

position-get_elem? :
    (i : ℕ) (op : Text) (names : List Text) (code : ℕ)
    → position i op names ≡ some code
    → (n : ℕ) × (code ≡ i + n) × (get_elem? names n ≡ some op) × (listed op names ≡ true)
unfolding position
position-get_elem? i op [] code h = cc
position-get_elem? i op (name ∷ names) code h = elim (Bool-cases (text_eq op name)) [
  | inl same ↦
      let e : op ≡ name = (text_eq_iff op name).0 same in
      let here : i ≡ code = cc (rw same at h) in (0, omega arith, ap some (sym e), rw same refl)
  | inr other ↦
      let (n, e, there, is) = position-get_elem? (suc i) op names code (rw other at h) in
      (suc n, omega arith, there, rw other is)
]

pub op_code-listed :
    (op : Text) (code : ℕ)
    → op_code op ≡ some code
    → (get_elem? operators code ≡ some op) × (listed op operators ≡ true)
op_code-listed op code h =
    let (n, e, there, is) =
      position-get_elem? 0 op operators code (sym (op_code-position op) ∙ h) in
    let same : n ≡ code = omega arith in (ap (get_elem? operators) (sym same) ∙ there, is)

pub op_code-unlisted : (op : Text) → op_code op ≡ none → listed op operators ≡ false
op_code-unlisted op h = position-listed 0 op operators (sym (op_code-position op) ∙ h)

pub has_operator-listed : (fs : Fields) → has_operator fs ≡ has_listed fs
unfolding has_operator
has_operator-listed end = refl
has_operator-listed (field op v fs) = elim (Option-cases (op_code op)) [
  | inl other ↦ rw (other, op_code-unlisted op other, has_operator) (has_operator-listed fs)
  | inr (code, known) ↦ rw (known, (op_code-listed op code known).1, has_operator) refl
]

pub length-encode_operator_object :
    (key : Text) (fs : Fields) → length (encode_operator_object key fs) ≡ operators_in fs
unfolding encode_operator_object
length-encode_operator_object key end = refl
length-encode_operator_object key (field op v fs) = elim (Option-cases (op_code op)) [
  | inl other ↦
      rw (other, op_code-unlisted op other, encode_operator_object)
        (length-encode_operator_object key fs)
  | inr (code, known) ↦
      rw (known, (op_code-listed op code known).1, encode_operator_object)
        (ap suc (length-encode_operator_object key fs))
]
