-- ===== src/Wire/Laws.antt =====
-- Sets in a batch and on their own, and what a pushed delta is about.
use zyncbase.Wire.Decode.{
  wire_doc_id, decode_removal, decode_write, decode_store_delta, safe_index, text_prop, caught,
}
use zyncbase.Errors.{Thrown}
use zyncbase.Json.{
  Value, null, bool, num, str, bytes, arr, obj, nil, cons, Fields, end, field, get_prop, set_prop,
  items,
}
use zyncbase.Prelude.Int.{pos}
use zyncbase.Prelude.Result.{Result, ok, err, >>=-eq-ok}
use zyncbase.Schema.{SchemaDictionary}
use zyncbase.Schema.Records.{decode_record}
use zyncbase.Schema.Paths.{
  get_table_name, decode_path, decode_doc_ref, document, plain, DocRef, WirePath,
}
use zyncbase.Subscriptions.Tracker.{StoreDelta}
use zyncbase.Subscriptions.Views.{Op, set_op, remove_op}
use zyncbase.Wire.Encode.{
  encode_store_set_remove, encode_batch_op, place_path, encode_set_value, encode_op, encode_logical,
  logical_path, encode_object, table_of, path_value,
}
use zyncbase.Prelude.{
  ◌≡◌, refl, sym, true, inl, inr, none, some, Option-cases, ℕ, Option, List, [], ◌∷◌, arith, ◌==◌,
  if◌then◌else◌, Bool-cases,
}
use zyncbase.Prelude.Text.{text, text_eq, Text}

-- The request that sets a value, and the same set within a batch.
abbrev pub set_request : Value → Value → Fields
set_request path v = field (text "path") path (field (text "value") v end)

-- The same with further properties.
abbrev pub set_with : Value → Value → Fields → Fields
set_with path v more = field (text "path") path (field (text "value") v more)

abbrev pub batch_set : Value → Value → Value
batch_set path v = arr (cons (str (text "s")) (cons path (cons v nil)))

-- An op on one document of a table: the path is the table's name and the id, and a record that is
-- set has that id.
abbrev pub IsAbout : Text → Op → Type 0
IsAbout name (set_op path v) =
    (id : Text) × (fs : Fields) × (path ≡ name ∷ id ∷ [])
    × (v ≡ obj fs)
    × (get_prop (text "id") fs ≡ some (str id))
IsAbout name (remove_op path) = (id : Text) × (path ≡ name ∷ id ∷ [])

module _ (d : SchemaDictionary) where
  placed_set :
      (encoded : WirePath) (p v : Value) (more wire : Fields)
      → place_path d true (set_with p v more) encoded ≡ ok wire
      → (w : Value) × (encode_object d (table_of encoded) v ≡ ok w)
        × (wire ≡ set_with (path_value encoded) w more)
  unfolding place_path encode_set_value set_prop get_prop text_eq
  placed_set encoded p v more wire h =
      let (w, ew, e) = >>=-eq-ok (encode_object d (table_of encoded) v) _ wire h in (w, ew, sym cc)

  placed_op :
      (encoded : WirePath) (v w : Value)
      → encode_object d (table_of encoded) v ≡ ok w
      → encode_op d (str (text "s")) (cons v nil) encoded ≡ ok (batch_set (path_value encoded) w)
  unfolding encode_op text_eq
  placed_op encoded v w h = rw h refl

  -- The same path and the same value, whatever further properties the request has.
  pub encode_batch_op-set_with :
      (p v : Value) (more wire : Fields)
      → encode_store_set_remove d true (set_with p v more) ≡ ok wire
      → (q : Value) × (w : Value) × (wire ≡ set_with q w more)
        × (encode_batch_op d (batch_set p v) ≡ ok (batch_set q w))
  unfolding encode_store_set_remove encode_batch_op get_prop text_eq
  encode_batch_op-set_with p v more wire h = elim (Option-cases (logical_path (some p))) [
    | inl other ↦
        let whole = rw (other, encode_store_set_remove) at h in
        let same : wire ≡ set_with p v more = sym cc in
        (p, v, same, rw (other, encode_batch_op) refl)
    | inr (path, logical) ↦
        let there = rw (logical, encode_store_set_remove) at h in
        let (encoded, e, placed) =
          >>=-eq-ok (encode_logical d path) (place_path d true (set_with p v more)) wire there in
        let (w, ew, shape) = placed_set encoded p v more wire placed in
        (path_value encoded, w, shape, rw (logical, encode_batch_op, e) (placed_op encoded v w ew))
  ]

  -- What a request to set a value becomes on the wire, the same set becomes within a batch: the same
  -- path, and the same value.
  pub encode_batch_op-set :
      (p v : Value) (wire : Fields)
      → encode_store_set_remove d true (set_request p v) ≡ ok wire
      → (q : Value) × (w : Value) × (wire ≡ set_request q w)
        × (encode_batch_op d (batch_set p v) ≡ ok (batch_set q w))
  encode_batch_op-set p v wire h = encode_batch_op-set_with p v end wire h

  >>=-eq-some :
      {A B : Type 0} (m : Option A) (f : A → Option B) (b : B)
      → zyncbase.Wire.Decode.◌>>=◌ m f ≡ some b
      → (a : A) × (m ≡ some a) × (f a ≡ some b)
  >>=-eq-some none f b h = cc
  >>=-eq-some (some a) f b h = (a, refl, h)

  caught-eq-some : {A : Type 0} (r : Result Thrown A) (a : A) → caught r ≡ some a → r ≡ ok a
  caught-eq-some (ok b) a h = cc
  caught-eq-some (err t) a h = cc

  text_prop-eq-some :
      (key : Text) (fs : Fields) (s : Text)
      → text_prop d key fs ≡ some s
      → get_prop key fs ≡ some (str s)
  text_prop-eq-some key fs s h = ground arith

  decode_path-document :
      (ti : ℕ) (ref : DocRef) (path : List Text)
      → decode_path d (document (pos ti) ref) ≡ ok path
      → (name : Text) × (id : Text) × (get_table_name d (pos ti) ≡ ok name)
        × (decode_doc_ref ref ≡ ok id)
        × (path ≡ name ∷ id ∷ [])
  unfolding decode_path
  decode_path-document ti ref path h =
      let (name, there, h') = >>=-eq-ok (get_table_name d (pos ti)) _ path h in
      let (id, decoded, e) = >>=-eq-ok (decode_doc_ref ref) _ path h' in
      (name, id, there, decoded, sym cc)

  safe_index-num : (v : Value) (n : ℕ) → safe_index v ≡ some n → v ≡ num (pos n)
  safe_index-num v n h = ground arith

  removal_of :
      (sub ti : ℕ) (id : Value) (delta : StoreDelta)
      → decode_removal d sub ti id ≡ some delta
      → (name : Text) × (op : Op) × (get_table_name d (pos ti) ≡ ok name)
        × (delta ≡ record { sub_id = sub; ops = op ∷ [] })
        × IsAbout name op
  unfolding decode_removal
  removal_of sub ti id delta h =
      let (ref, e, h') = >>=-eq-some (wire_doc_id id) _ delta h in
      let (path, found, h'') =
        >>=-eq-some (caught (decode_path d (document (pos ti) ref))) _ delta h' in
      let (name, doc, there, decoded, shape) =
        decode_path-document ti ref path (caught-eq-some _ path found) in
      (name, remove_op path, there, sym cc, (doc, shape))

  write_of :
      (sub ti : ℕ) (row : Value) (delta : StoreDelta)
      → decode_write d sub ti row ≡ some delta
      → (name : Text) × (op : Op) × (get_table_name d (pos ti) ≡ ok name)
        × (delta ≡ record { sub_id = sub; ops = op ∷ [] })
        × IsAbout name op
  unfolding decode_write decode_doc_ref
  write_of sub ti (arr row) delta h =
      let (fs, e, h') = >>=-eq-some (caught (decode_record d ti (items row))) _ delta h in
      let (id, own, h'') = >>=-eq-some (text_prop d (text "id") fs) _ delta h' in
      let (path, found, last) =
        >>=-eq-some (caught (decode_path d (document (pos ti) (plain id)))) _ delta h'' in
      let (name, doc, there, decoded, shape) =
        decode_path-document ti (plain id) path (caught-eq-some _ path found) in
      let same : id ≡ doc = cc in
      (
        name,
        set_op path (obj fs),
        there,
        sym cc,
        (id, fs, rw same shape, refl, text_prop-eq-some (text "id") fs id own),
      )
  write_of sub ti null delta h = cc
  write_of sub ti (bool b) delta h = cc
  write_of sub ti (num n) delta h = cc
  write_of sub ti (str s) delta h = cc
  write_of sub ti (bytes bs) delta h = cc
  write_of sub ti (obj fs) delta h = cc

  -- A delta that the client accepts has the subscription id of the message and one op. The op is on
  -- one document of the table that the message names, and a record that it sets has that document's
  -- id.
  pub decode_store_delta-IsAbout :
      (sub_id kind table_index last : Value) (delta : StoreDelta)
      → decode_store_delta d (sub_id ∷ kind ∷ table_index ∷ last ∷ []) ≡ some delta
      → (sub : ℕ) × (ti : ℕ) × (name : Text) × (op : Op) × (sub_id ≡ num (pos sub))
        × (table_index ≡ num (pos ti))
        × (get_table_name d (pos ti) ≡ ok name)
        × (delta ≡ record { sub_id = sub; ops = op ∷ [] })
        × IsAbout name op
  unfolding decode_store_delta
  decode_store_delta-IsAbout sub_id kind table_index last delta h =
      let (sub, es, h1) = >>=-eq-some (safe_index sub_id) _ delta h in
      let (ti, et, h2) = >>=-eq-some (safe_index table_index) _ delta h1 in
      let (k, ek, h3) = >>=-eq-some (safe_index kind) _ delta h2 in
      let (name, op, there, shape, about) = by_kind k sub ti h3 in
      (
        sub,
        ti,
        name,
        op,
        safe_index-num sub_id sub es,
        safe_index-num table_index ti et,
        there,
        shape,
        about,
      )
    where
      by_kind :
          (k sub ti : ℕ)
          → (if k == 1
              then decode_removal d sub ti last
              else if k == 0
              then decode_write d sub ti last
              else none)
            ≡ some delta
          → (name : Text) × (op : Op) × (get_table_name d (pos ti) ≡ ok name)
            × (delta ≡ record { sub_id = sub; ops = op ∷ [] })
            × IsAbout name op
      by_kind k sub ti e = elim (Bool-cases (k == 1)) [
        | inl one ↦ removal_of sub ti last delta (rw one at e)
        | inr other ↦ elim (Bool-cases (k == 0)) [
          | inl zero' ↦ write_of sub ti last delta (rw (other, zero') at e)
          | inr more ↦ cc (rw (other, more) at e)
        ]
      ]
