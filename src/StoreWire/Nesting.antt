-- ===== src/StoreWire/Nesting.antt =====
-- A write below a document and the write of a nested object.
use mathlib.Core.List.{append_assoc}
use zyncbase.StoreWire.{Confirm}
use zyncbase.StoreWire.Writes.{
  encode_write_value, wire_value, set_at, set_command, set_message, build_set,
}
use zyncbase.Path.{
  segments, normalize_path, has_empty, join, join_field_path, delimiter, full_key, flatten,
  flatten_into,
}
use zyncbase.Json.{
  Value, null, bool, num, str, bytes, arr, obj, Fields, end, field, set_prop, assign,
}
use zyncbase.Json.Laws.{IsFresh, HasDistinctKeys, set_prop-HasDistinctKeys}
use zyncbase.Prelude.{◌≡◌, refl, sym, ◌≢◌, ◌∙◌, ap, false, Option, List, [], ◌∷◌, ◌++◌, arith}
use zyncbase.Prelude.Text.{Text, text_eq, text_eq_iff}

abbrev append_fields : Fields → Fields → Fields
append_fields end gs = gs
append_fields (field k v fs) gs = field k v (append_fields fs gs)

IsFresh-middle :
    (j k : Text) (v : Value) (fs gs : Fields) → IsFresh j (append_fields fs (field k v gs)) → k ≢ j
IsFresh-middle j k v end gs (ne, h) = ne
IsFresh-middle j k v (field i w fs) gs (ne, h) = IsFresh-middle j k v fs gs h

set_prop-last :
    (k : Text) (v : Value) (fs gs : Fields)
    → HasDistinctKeys (append_fields fs (field k v gs))
    → set_prop k v fs ≡ append_fields fs (field k v end)
unfolding set_prop
set_prop-last k v end gs d = refl
set_prop-last k v (field j w fs) gs (f, d) =
    let ne = IsFresh-middle j k v fs gs f in
    let other : text_eq j k ≡ false = ground (arith, text_eq_iff j k) in
    rw (other, set_prop-last k v fs gs d) refl

append_fields_assoc :
    (fs gs hs : Fields)
    → append_fields (append_fields fs gs) hs ≡ append_fields fs (append_fields gs hs)
append_fields_assoc end gs hs = refl
append_fields_assoc (field k v fs) gs hs = rw (append_fields_assoc fs gs hs) refl

append_fields_end : (fs : Fields) → append_fields fs end ≡ fs
append_fields_end end = refl
append_fields_end (field k v fs) = rw (append_fields_end fs) refl

assign-append :
    (fs gs : Fields) → HasDistinctKeys (append_fields fs gs) → assign fs gs ≡ append_fields fs gs
unfolding assign
assign-append fs end d = sym (append_fields_end fs)
assign-append fs (field k v gs) d =
    let whole = append_fields_assoc fs (field k v end) gs in
    rw (set_prop-last k v fs gs d)
      (assign-append (append_fields fs (field k v end)) gs (rw whole d) ∙ whole)

assign-HasDistinctKeys : (fs gs : Fields) → HasDistinctKeys fs → HasDistinctKeys (assign fs gs)
unfolding assign
assign-HasDistinctKeys fs end d = d
assign-HasDistinctKeys fs (field k v gs) d =
    assign-HasDistinctKeys (set_prop k v fs) gs (set_prop-HasDistinctKeys k v fs d)

-- `{ [p]: { ...: { [q]: value } } }`, along a path of names.
abbrev pub nest : Text → List Text → Value → Fields
nest p [] v = field p v end
nest p (q ∷ qs) v = field p (obj (nest q qs v)) end

-- What a single property becomes.
abbrev leaf : Text → Value → Fields
leaf key v = flatten_into end [] (field key v end)

assign-leaf : (key : Text) (v : Value) → assign end (leaf key v) ≡ leaf key v
unfolding flatten_into assign set_prop
assign-leaf key (obj fs) =
    let nested = flatten_into end key fs in
    assign-append end (assign end nested) (assign-HasDistinctKeys end nested tt)
assign-leaf key null = refl
assign-leaf key (bool b) = refl
assign-leaf key (num n) = refl
assign-leaf key (str s) = refl
assign-leaf key (bytes bs) = refl
assign-leaf key (arr vs) = refl

leaf_below :
    (c : _) (s q : Text) (v : Value)
    → flatten_into end (c ∷ s) (field q v end) ≡ leaf (full_key (c ∷ s) q) v
unfolding flatten_into set_prop join_field_path join
leaf_below c s q (obj fs) = refl
leaf_below c s q null = refl
leaf_below c s q (bool b) = refl
leaf_below c s q (num n) = refl
leaf_below c s q (str t) = refl
leaf_below c s q (bytes bs) = refl
leaf_below c s q (arr vs) = refl

join-joined :
    (p q r : Text) (rs : List Text)
    → join delimiter (join delimiter (p ∷ q ∷ []) ∷ r ∷ rs) ≡ join delimiter (p ∷ q ∷ r ∷ rs)
unfolding join
join-joined p q r rs = append_assoc p (delimiter ++ q) (delimiter ++ join delimiter (r ∷ rs))

flatten-nest :
    (p q : Text) (qs : List Text) (v : Value)
    → p ≢ []
    → flatten_into end p (nest q qs v) ≡ leaf (join_field_path (p ∷ q ∷ qs)) v
unfolding flatten_into join_field_path join
flatten-nest [] q qs v ne = absurd (ne refl)
flatten-nest (c ∷ s) q [] v ne = leaf_below c s q v
flatten-nest (c ∷ s) q (r ∷ rs) v ne =
    let prefix = join_field_path ((c ∷ s) ∷ q ∷ []) in
    let ih = flatten-nest prefix r rs v (λ e. cc) in
    ap (assign end) (ih ∙ ap (λ key. leaf key v) (join-joined (c ∷ s) q r rs))
    ∙ assign-leaf (join_field_path ((c ∷ s) ∷ q ∷ r ∷ rs)) v

nested :
    (p q : Text) (qs : List Text) (v : Value)
    → p ≢ []
    → flatten_into end [] (nest p (q ∷ qs) v) ≡ leaf (join_field_path (p ∷ q ∷ qs)) v
unfolding flatten_into
nested p q qs v ne =
    ap (assign end) (flatten-nest p q qs v ne) ∙ assign-leaf (join_field_path (p ∷ q ∷ qs)) v

-- The value of a write below a document, and the object that is nested in it.
wire_value-nest :
    (p : Text) (ps : List Text) (v : Value)
    → p ≢ []
    → encode_write_value (wire_value (p ∷ ps) v) ≡ encode_write_value (obj (nest p ps v))
unfolding encode_write_value wire_value flatten join_field_path join
wire_value-nest p [] v ne = refl
wire_value-nest p (q ∷ qs) v ne = ap obj (sym (nested p q qs v ne))

set_at-nest :
    (collection id p : Text) (ps : List Text) (v : Value) (confirm : Option Confirm) (uuid : Text)
    → p ≢ []
    → set_at v confirm uuid (collection ∷ id ∷ p ∷ ps)
      ≡ set_at (obj (nest p ps v)) confirm uuid (collection ∷ id ∷ [])
unfolding set_at set_command set_message wire_value
set_at-nest collection id p ps v confirm uuid ne = rw (wire_value-nest p ps v ne) refl

-- Setting a value at a path of nonempty segments below a document sends exactly what setting the
-- object that is nested along that path sends at the document.
pub build_set-nest :
    (collection id p : Text) (ps : List Text) (v : Value) (confirm : Option Confirm) (uuid : Text)
    → has_empty (collection ∷ id ∷ p ∷ ps) ≡ false
    → build_set (segments (collection ∷ id ∷ p ∷ ps)) v confirm uuid
      ≡ build_set (segments (collection ∷ id ∷ [])) (obj (nest p ps v)) confirm uuid
unfolding build_set normalize_path
build_set-nest [] id p ps v confirm uuid h = cc
build_set-nest (c ∷ s) [] p ps v confirm uuid h = cc
build_set-nest (c ∷ s) (d ∷ t) [] ps v confirm uuid h = cc
build_set-nest (c ∷ s) (d ∷ t) (e ∷ u) ps v confirm uuid h =
    rw h (set_at-nest (c ∷ s) (d ∷ t) (e ∷ u) ps v confirm uuid (λ same. cc))
