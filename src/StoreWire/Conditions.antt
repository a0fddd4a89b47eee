-- ===== src/StoreWire/Conditions.antt =====
-- The conditions of an object hold exactly if what it asks for holds.
use zyncbase.StoreWire.Operators.{
  op_code-listed, op_code-unlisted, has_operator-listed, length-encode_operator_object,
}
use zyncbase.StoreWire.Asked.{
  named, reads, about_null, ArePlain, meets, all_meet, any_meet, asks, operators_hold, has_listed,
  satisfies, operators_in, conditions_in,
}
use mathlib.Core.List.{append_assoc}
use zyncbase.StoreWire.Where.{
  equals, Condition, op_code, is_null_test, encode_operator_object, encode_condition_object,
}
use zyncbase.Path.{join, join_field_path, delimiter, full_key, split_on}
use zyncbase.Json.{Value, null, bool, num, str, bytes, arr, obj, Fields, end, field}
use zyncbase.Prelude.{
  ◌≡◌, refl, sym, ◌≢◌, inl, inr, ℕ, Bool, true, false, ◌&&◌, ◌||◌, none, some, List, [], ◌∷◌, ◌++◌,
  length, arith, if◌then◌else◌, Option-cases, ◌∙◌, length-append, suc, ◌+◌, ap, Bool-cases, not,
}
use zyncbase.Prelude.Text.{Text, text, text_eq}

-- The path of a nested property, from the outermost name on.
abbrev pub IsPath : List Text → Fields → Type 0
IsPath [] fs = ArePlain fs
IsPath (p ∷ ps) fs = (p ≢ []) × ArePlain fs

join-snoc :
    (p : Text) (ps : List Text) (key : Text)
    → join delimiter ((p ∷ ps) ++ key ∷ []) ≡ join delimiter (p ∷ ps) ++ (delimiter ++ key)
unfolding join
join-snoc p [] key = refl
join-snoc p (q ∷ qs) key =
    rw (join-snoc q qs key)
      (sym (append_assoc p (delimiter ++ join delimiter (q ∷ qs)) (delimiter ++ key)))

full_key-path :
    (path : List Text) (key : Text) (fs : Fields)
    → IsPath path fs
    → full_key (join_field_path path) key ≡ join_field_path (path ++ key ∷ [])
unfolding join_field_path join
full_key-path [] key fs h = refl
full_key-path ([] ∷ ps) key fs h = absurd (h.0 refl)
full_key-path ((c ∷ p) ∷ []) key fs h = refl
full_key-path ((c ∷ p) ∷ q ∷ qs) key fs h = sym (join-snoc (c ∷ p) (q ∷ qs) key)

plain_of : (path : List Text) (fs : Fields) → IsPath path fs → ArePlain fs
plain_of [] fs h = h
plain_of (p ∷ ps) fs h = h.1

same-IsPath : (path : List Text) (fs gs : Fields) → IsPath path fs → ArePlain gs → IsPath path gs
same-IsPath [] fs gs h plain = plain
same-IsPath (p ∷ ps) fs gs h plain = (h.0, plain)

longer :
    (path : List Text) (key : Text) (fs gs : Fields)
    → IsPath path fs
    → key ≢ []
    → ArePlain gs
    → IsPath (path ++ key ∷ []) gs
longer [] key fs gs h ne plain = (ne, plain)
longer (p ∷ ps) key fs gs h ne plain = (h.0, plain)

length-branch :
    (t : Bool) (as_ bs cs : List Condition) (x y z : ℕ)
    → length as_ ≡ x
    → length bs ≡ y
    → length cs ≡ z
    → length ((if t then as_ else bs) ++ cs) ≡ (if t then x else y) + z
length-branch true as_ bs cs x y z a b c = rw (length-append as_ cs, a, c) refl
length-branch false as_ bs cs x y z a b c = rw (length-append bs cs, b, c) refl

pub length-encode_condition_object :
    (fs : Fields) (prefix : Text) → length (encode_condition_object fs prefix) ≡ conditions_in fs
unfolding encode_condition_object conditions_in
length-encode_condition_object end prefix = refl
length-encode_condition_object (field key (obj fs) rest) prefix = rw (has_operator-listed fs) (
    length-branch (has_listed fs) (encode_operator_object (full_key prefix key) fs)
      (encode_condition_object fs (full_key prefix key)) (encode_condition_object rest prefix)
      (operators_in fs) (conditions_in fs) (conditions_in rest)
      (length-encode_operator_object (full_key prefix key) fs)
      (length-encode_condition_object fs (full_key prefix key))
      (length-encode_condition_object rest prefix))
length-encode_condition_object (field key null rest) prefix =
    ap suc (length-encode_condition_object rest prefix)
length-encode_condition_object (field key (bool b) rest) prefix =
    ap suc (length-encode_condition_object rest prefix)
length-encode_condition_object (field key (num n) rest) prefix =
    ap suc (length-encode_condition_object rest prefix)
length-encode_condition_object (field key (str s) rest) prefix =
    ap suc (length-encode_condition_object rest prefix)
length-encode_condition_object (field key (bytes bs) rest) prefix =
    ap suc (length-encode_condition_object rest prefix)
length-encode_condition_object (field key (arr vs) rest) prefix =
    ap suc (length-encode_condition_object rest prefix)

module _ (test : Text → Text → Value → Bool) (is_null : Text → Bool) where
  all_meet-append :
      (cs ds : List Condition)
      → all_meet test is_null (cs ++ ds) ≡ (all_meet test is_null cs && all_meet test is_null ds)
  all_meet-append [] ds = refl
  all_meet-append (c ∷ cs) ds = ground (arith, all_meet-append cs ds)

  pub any_meet-append :
      (cs ds : List Condition)
      → any_meet test is_null (cs ++ ds) ≡ (any_meet test is_null cs || any_meet test is_null ds)
  any_meet-append [] ds = refl
  any_meet-append (c ∷ cs) ds = ground (arith, any_meet-append cs ds)

  reads-asks :
      (key op : Text) (v : Value)
      → (about_null op ≡ true → v ≡ bool true)
      → reads test is_null key op (if is_null_test op then none else some v)
        ≡ asks test is_null key op v
  unfolding is_null_test
  reads-asks key op v plain = elim (Bool-cases (text_eq op (text "isNull"))) [
    | inl null_ ↦
        let silent : (if is_null_test op then none else some v) ≡ none = rw null_ refl in
        let isn : reads test is_null key op none ≡ is_null key = rw null_ refl in
        ap (reads test is_null key op) silent ∙ isn ∙ rw (null_, plain (rw null_ refl)) refl
    | inr other ↦ elim (Bool-cases (text_eq op (text "isNotNull"))) [
      | inl there ↦
          let silent : (if is_null_test op then none else some v) ≡ none = rw (other, there) refl in
          let is : reads test is_null key op none ≡ not (is_null key) = rw (other, there) refl in
          ap (reads test is_null key op) silent
          ∙ is
          ∙ rw (other, there, plain (rw (other, there) refl)) refl
      | inr compares ↦
          let told : (if is_null_test op then none else some v) ≡ some v =
            rw (other, compares) refl in
          let is : reads test is_null key op (some v) ≡ test key op v = rw (other, compares) refl in
          ap (reads test is_null key op) told ∙ is ∙ rw (other, compares) refl
    ]
  ]

  meets-asks :
      (key op : Text) (v : Value) (code : ℕ)
      → op_code op ≡ some code
      → (about_null op ≡ true → v ≡ bool true)
      → meets test is_null
          (record { key = key; op = code; operand = if is_null_test op then none else some v })
        ≡ asks test is_null key op v
  meets-asks key op v code known plain =
      ap (λ o. named test is_null key o (if is_null_test op then none else some v))
        (op_code-listed op code known).0
      ∙ reads-asks key op v plain

  null_plain :
      (op : Text) (v : Value) (fs : Fields)
      → ArePlain (field op v fs)
      → (about_null op ≡ true → v ≡ bool true) × ArePlain fs
  null_plain op (obj gs) fs (name, _, more) = (name.2, more)
  null_plain op null fs (name, more) = (name.2, more)
  null_plain op (bool b) fs (name, more) = (name.2, more)
  null_plain op (num n) fs (name, more) = (name.2, more)
  null_plain op (str s) fs (name, more) = (name.2, more)
  null_plain op (bytes bs) fs (name, more) = (name.2, more)
  null_plain op (arr vs) fs (name, more) = (name.2, more)

  all_meet-operators :
      (key : Text) (fs : Fields)
      → ArePlain fs
      → all_meet test is_null (encode_operator_object key fs) ≡ operators_hold test is_null key fs
  unfolding encode_operator_object
  all_meet-operators key end plain = refl
  all_meet-operators key (field op v fs) plain =
      let (nulls, more) = null_plain op v fs plain in
      elim (Option-cases (op_code op)) [
        | inl other ↦
            rw (other, op_code-unlisted op other, encode_operator_object)
              (all_meet-operators key fs more)
        | inr (code, known) ↦
            rw (known, (op_code-listed op code known).1, encode_operator_object)
              (rw (meets-asks key op v code known nulls, all_meet-operators key fs more) refl)
      ]

  all_meet-branch :
      (t : Bool) (as_ bs cs : List Condition) (x y z : Bool)
      → all_meet test is_null as_ ≡ x
      → all_meet test is_null bs ≡ y
      → all_meet test is_null cs ≡ z
      → all_meet test is_null ((if t then as_ else bs) ++ cs) ≡ ((if t then x else y) && z)
  all_meet-branch true as_ bs cs x y z a b c = rw (all_meet-append as_ cs, a, c) refl
  all_meet-branch false as_ bs cs x y z a b c = rw (all_meet-append bs cs, b, c) refl

  value_plain :
      (path : List Text) (key : Text) (v : Value) (rest : Fields)
      → IsPath path (field key v rest)
      → split_on b'.' key ≡ key ∷ []
      → ArePlain rest
      → all_meet test is_null (encode_condition_object rest (join_field_path path))
        ≡ satisfies test is_null path rest
      → all_meet test is_null (
          equals (full_key (join_field_path path) key) v
          ∷ encode_condition_object rest (join_field_path path))
        ≡ (test (join delimiter (path ++ split_on b'.' key)) (text "eq") v
            && satisfies test is_null path rest)
  unfolding join_field_path text_eq
  value_plain path key v rest h whole more ih =
      rw (full_key-path path key (field key v rest) h, whole, ih) refl

  -- The conditions of an object all hold exactly if the object is satisfied.
  pub all_meet-encode_condition_object :
      (path : List Text) (fs : Fields)
      → IsPath path fs
      → all_meet test is_null (encode_condition_object fs (join_field_path path))
        ≡ satisfies test is_null path fs
  unfolding encode_condition_object satisfies join_field_path
  all_meet-encode_condition_object path end h = refl
  all_meet-encode_condition_object path (field key (obj fs) rest) h =
      let ((ne, whole, nulls), below, more) = plain_of path (field key (obj fs) rest) h in
      rw (full_key-path path key (field key (obj fs) rest) h, whole, has_operator-listed fs)
        (all_meet-branch (has_listed fs)
          (encode_operator_object (join_field_path (path ++ key ∷ [])) fs)
          (encode_condition_object fs (join_field_path (path ++ key ∷ [])))
          (encode_condition_object rest (join_field_path path))
          (operators_hold test is_null (join_field_path (path ++ key ∷ [])) fs)
          (satisfies test is_null (path ++ key ∷ []) fs) (satisfies test is_null path rest)
          (all_meet-operators (join_field_path (path ++ key ∷ [])) fs below)
          (all_meet-encode_condition_object (path ++ key ∷ []) fs
            (longer path key (field key (obj fs) rest) fs h ne below))
          (all_meet-encode_condition_object path rest
            (same-IsPath path (field key (obj fs) rest) rest h more)))
  all_meet-encode_condition_object path (field key null rest) h =
      let ((ne, whole, nulls), more) = plain_of path (field key null rest) h in
      value_plain path key null rest h whole more (
        all_meet-encode_condition_object path rest
          (same-IsPath path (field key null rest) rest h more))
  all_meet-encode_condition_object path (field key (bool b) rest) h =
      let ((ne, whole, nulls), more) = plain_of path (field key (bool b) rest) h in
      value_plain path key (bool b) rest h whole more (
        all_meet-encode_condition_object path rest
          (same-IsPath path (field key (bool b) rest) rest h more))
  all_meet-encode_condition_object path (field key (num n) rest) h =
      let ((ne, whole, nulls), more) = plain_of path (field key (num n) rest) h in
      value_plain path key (num n) rest h whole more (
        all_meet-encode_condition_object path rest
          (same-IsPath path (field key (num n) rest) rest h more))
  all_meet-encode_condition_object path (field key (str s) rest) h =
      let ((ne, whole, nulls), more) = plain_of path (field key (str s) rest) h in
      value_plain path key (str s) rest h whole more (
        all_meet-encode_condition_object path rest
          (same-IsPath path (field key (str s) rest) rest h more))
  all_meet-encode_condition_object path (field key (bytes bs) rest) h =
      let ((ne, whole, nulls), more) = plain_of path (field key (bytes bs) rest) h in
      value_plain path key (bytes bs) rest h whole more (
        all_meet-encode_condition_object path rest
          (same-IsPath path (field key (bytes bs) rest) rest h more))
  all_meet-encode_condition_object path (field key (arr vs) rest) h =
      let ((ne, whole, nulls), more) = plain_of path (field key (arr vs) rest) h in
      value_plain path key (arr vs) rest h whole more (
        all_meet-encode_condition_object path rest
          (same-IsPath path (field key (arr vs) rest) rest h more))
