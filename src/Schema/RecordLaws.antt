-- ===== src/Schema/RecordLaws.antt =====
-- Values of fields, encoded and decoded again.
use zyncbase.Schema.{SchemaDictionary, has_bit}
use zyncbase.Schema.Paths.{get_field_flags, is_doc_id_field, flag_of}
use zyncbase.Schema.PathLaws.{thrown_by-eq-ok}
use zyncbase.Schema.Records.{
  pack_value, pack_items, pack_field, encode_field_value, unpack_value, unpack_items, unpack_field,
  decode_field_value_with_flags, decode_field_value,
}
use zyncbase.DocId.{pack_doc_id}
use zyncbase.DocId.Caching.{no_caches, no_caches-IsValid}
use zyncbase.DocId.RoundTrip.{unpack-pack_doc_id}
use zyncbase.Errors.{Thrown, ErrorCode, zync}
use zyncbase.Json.{Value, null, bool, num, str, bytes, arr, obj, Items, nil, cons}
use zyncbase.Presence.Broadcast.{thrown_by}
use zyncbase.Prelude.Result.{Result, ok, err, >>=-eq-ok}
use zyncbase.Prelude.{◌≡◌, refl, ℕ, Bool, true, false, if◌then◌else◌}
use zyncbase.Prelude.Text.{Text}

-- No byte array, and no list with one as an item: bytes in a field of document ids would be taken
-- for a packed id.
abbrev pub HasNoBytes : Value → Type 0
HasNoBytes (bytes bs) = ⊥
HasNoBytes v = Unit {0}

abbrev pub NoneBytes : Items → Type 0
NoneBytes nil = Unit {0}
NoneBytes (cons v vs) = HasNoBytes v × NoneBytes vs

abbrev pub IsDocIdData : Value → Type 0
IsDocIdData (arr vs) = NoneBytes vs
IsDocIdData v = HasNoBytes v

unpack-pack_value : (v w : Value) → HasNoBytes v → pack_value v ≡ ok w → unpack_value w ≡ ok v
unfolding pack_value unpack_value
unpack-pack_value (str id) w h e =
    let (packed, stored, e') =
      >>=-eq-ok (thrown_by zync (pack_doc_id id ErrorCode.invalid_message)) _ w e in
    let inner = thrown_by-eq-ok zync (pack_doc_id id ErrorCode.invalid_message) packed stored in
    let back =
      (unpack-pack_doc_id id ErrorCode.invalid_message packed no_caches no_caches-IsValid
        inner).0 in
    let same : bytes packed ≡ w = cc in rw (← same, unpack_value, back) refl
unpack-pack_value (bytes bs) w h e = absurd h
unpack-pack_value null w h e = let same : null ≡ w = cc in rw (← same) refl
unpack-pack_value (bool b) w h e = let same : bool b ≡ w = cc in rw (← same) refl
unpack-pack_value (num n) w h e = let same : num n ≡ w = cc in rw (← same) refl
unpack-pack_value (arr vs) w h e = let same : arr vs ≡ w = cc in rw (← same) refl
unpack-pack_value (obj fs) w h e = let same : obj fs ≡ w = cc in rw (← same) refl

unpack-pack_items : (vs ws : Items) → NoneBytes vs → pack_items vs ≡ ok ws → unpack_items ws ≡ ok vs
unfolding pack_items unpack_items
unpack-pack_items nil ws h e = let same : nil ≡ ws = cc in rw (← same) refl
unpack-pack_items (cons v vs) ws (h, hs) e =
    let (w, ew, e') = >>=-eq-ok (pack_value v) _ ws e in
    let (ws', ews, e'') = >>=-eq-ok (pack_items vs) _ ws e' in
    let same : cons w ws' ≡ ws = cc in
    rw (← same, unpack_items, unpack-pack_value v w h ew, unpack-pack_items vs ws' hs ews) refl

unpack-pack_field : (v w : Value) → IsDocIdData v → pack_field v ≡ ok w → unpack_field w ≡ ok v
unfolding pack_field unpack_field pack_value
unpack-pack_field (arr vs) w h e =
    let (ws, ews, e') = >>=-eq-ok (pack_items vs) _ w e in
    let same : arr ws ≡ w = cc in rw (← same, unpack_field, unpack-pack_items vs ws h ews) refl
unpack-pack_field (bytes bs) w h e = absurd h
unpack-pack_field (str id) w h e = packed_text id w e (unpack-pack_value (str id) w h e)
  where
    packed_text :
        (id : Text) (w : Value)
        → pack_value (str id) ≡ ok w
        → unpack_value w ≡ ok (str id)
        → unpack_field w ≡ ok (str id)
    packed_text id (arr vs) e back =
        let (packed, stored, e') =
          >>=-eq-ok (thrown_by zync (pack_doc_id id ErrorCode.invalid_message)) _ (arr vs) e in
        cc
    packed_text id (bytes bs) e back = back
    packed_text id (str s) e back = back
    packed_text id null e back = back
    packed_text id (bool b) e back = back
    packed_text id (num n) e back = back
    packed_text id (obj fs) e back = back
unpack-pack_field null w h e = let same : null ≡ w = cc in rw (← same) refl
unpack-pack_field (bool b) w h e = let same : bool b ≡ w = cc in rw (← same) refl
unpack-pack_field (num n) w h e = let same : num n ≡ w = cc in rw (← same) refl
unpack-pack_field (obj fs) w h e = let same : obj fs ≡ w = cc in rw (← same) refl

flag_of-eq-ok :
    (bit : ℕ) (r : Result Thrown ℕ) (b : Bool)
    → flag_of bit r ≡ ok b
    → (flags : ℕ) × (r ≡ ok flags) × (has_bit flags bit ≡ b)
flag_of-eq-ok bit (ok flags) b h = (flags, refl, cc)
flag_of-eq-ok bit (err t) b h = cc

-- A value that encodeFieldValue accepts is given back by decodeFieldValue, if it is no byte array
-- and no list with one as an item.
pub decode_field_value-encode_field_value :
    (d : SchemaDictionary) (table_index field_index : ℕ) (v w : Value)
    → IsDocIdData v
    → encode_field_value d table_index field_index v ≡ ok w
    → decode_field_value d table_index field_index w ≡ ok v
unfolding encode_field_value decode_field_value decode_field_value_with_flags is_doc_id_field
decode_field_value-encode_field_value d ti fi v w h e =
    let (doc_id, ed, ew) = >>=-eq-ok (is_doc_id_field d ti fi) _ w e in
    let (flags, ef, bit) = flag_of-eq-ok 2 (get_field_flags d ti fi) doc_id ed in
    rw (ef, bit) (by_flag doc_id v w h ew)
  where
    by_flag :
        (doc_id : Bool) (v w : Value)
        → IsDocIdData v
        → (if doc_id then pack_field v else ok v) ≡ ok w
        → (if doc_id then unpack_field w else ok w) ≡ ok v
    by_flag true v w h e = unpack-pack_field v w h e
    by_flag false v w h e = cc
