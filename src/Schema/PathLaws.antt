-- ===== src/Schema/PathLaws.antt =====
-- `encodePath` followed by `decodePath`.
use zyncbase.Schema.{SchemaDictionary}
use zyncbase.Schema.Invariant.{IsConsistent}
use zyncbase.Schema.Paths.{
  or_throw, get_table_index, get_field_index, get_table_name, get_fields, get_field_name, pack_id,
  WirePath, table, document, field_at, packed, encode_path, decode_path, decode_doc_ref,
}
use zyncbase.DocId.{pack_doc_id}
use zyncbase.DocId.Caching.{no_caches, no_caches-IsValid}
use zyncbase.DocId.RoundTrip.{unpack-pack_doc_id}
use zyncbase.DocId.Short.{Bytes}
use zyncbase.Errors.{Thrown, ErrorCode, zync}
use zyncbase.Path.{join_field_path, split_field_path}
use zyncbase.Presence.Broadcast.{thrown_by}
use zyncbase.Prelude.Dict.{lookup}
use zyncbase.Prelude.Int.{pos}
use zyncbase.Prelude.Table.{find}
use zyncbase.Prelude.Result.{Result, ok, err, >>=-eq-ok}
use zyncbase.Prelude.{ℕ, ◌≡◌, refl, Option, none, some, List, ◌∷◌, get_elem?, ap, []}
use zyncbase.Prelude.Text.{Text}

pub or_throw-eq-ok :
    {A : Type 0} (o : Option A) (t : Thrown) (a : A) → or_throw o t ≡ ok a → o ≡ some a
or_throw-eq-ok none t a h = cc
or_throw-eq-ok (some b) t a h = cc

pub thrown_by-eq-ok :
    {E A B : Type 0} (f : E → B) (r : Result E A) (a : A) → thrown_by f r ≡ ok a → r ≡ ok a
thrown_by-eq-ok f (ok b) a h = cc
thrown_by-eq-ok f (err e) a h = cc

-- What `decodePath` gives for the path that was encoded: the segments behind the document id are
-- split at "__" once more.
abbrev pub canonical_segments : List Text → List Text
canonical_segments (name ∷ id ∷ seg ∷ segs) =
    name ∷ id ∷ split_field_path (join_field_path (seg ∷ segs))
canonical_segments segs = segs

module _ (d : SchemaDictionary) (c : IsConsistent d) where
  get_table_name-index :
      (name : Text) (ti : ℕ) → get_table_index d name ≡ ok ti → get_table_name d (pos ti) ≡ ok name
  unfolding get_table_index get_table_name
  get_table_name-index name ti h =
      rw (c.tables_indexed name ti (or_throw-eq-ok (lookup name d.table_to_index) _ ti h)) refl

  get_field_name-index :
      (ti : ℕ) (name table_name : Text) (fi : ℕ)
      → get_elem? d.tables ti ≡ some table_name
      → get_field_index d ti name ≡ ok fi
      → get_field_name d (pos ti) (pos fi) ≡ ok name
  unfolding get_field_index get_field_name get_fields
  get_field_name-index ti name table_name fi there h =
      let (m, found, known) = >>=-eq-ok (or_throw (find ti d.field_to_index) _) _ fi h in
      let (names, fields, index) =
        c.no_other_map ti m (or_throw-eq-ok (find ti d.field_to_index) _ m found) in
      rw (there, fields, index name fi (or_throw-eq-ok (lookup name m) _ fi known)) refl

  decode_doc_ref-pack :
      (id : Text) (doc : Bytes) → pack_id id ≡ ok doc → decode_doc_ref (packed doc) ≡ ok id
  unfolding pack_id decode_doc_ref
  decode_doc_ref-pack id doc h =
      let stored = thrown_by-eq-ok zync (pack_doc_id id ErrorCode.invalid_path) doc h in
      ap (thrown_by zync)
        (unpack-pack_doc_id id ErrorCode.invalid_path doc no_caches no_caches-IsValid stored).0

  document_path :
      (name id : Text) (ti : ℕ) (doc : Bytes)
      → get_table_index d name ≡ ok ti
      → pack_id id ≡ ok doc
      → decode_path d (document (pos ti) (packed doc)) ≡ ok (name ∷ id ∷ [])
  unfolding decode_path
  document_path name id ti doc ht hd =
      rw (get_table_name-index name ti ht, decode_doc_ref-pack id doc hd) refl

  field_path :
      (name id flat : Text) (ti fi : ℕ) (doc : Bytes)
      → get_table_index d name ≡ ok ti
      → pack_id id ≡ ok doc
      → get_field_index d ti flat ≡ ok fi
      → decode_path d (field_at (pos ti) (packed doc) (pos fi))
        ≡ ok (name ∷ id ∷ split_field_path flat)
  unfolding decode_path
  field_path name id flat ti fi doc ht hd hf =
      let there =
        c.tables_indexed name ti
          (unfold get_table_index in (or_throw-eq-ok (lookup name d.table_to_index) _ ti ht)) in
      rw
        (
          get_table_name-index name ti ht,
          decode_doc_ref-pack id doc hd,
          get_field_name-index ti flat name fi there hf,
        )
        refl

  -- A path that `encodePath` accepts is decoded to the same table and document id; the field segments
  -- come back as the parts of the key that they make, joined by "__", split again at each "__".
  pub decode_path-encode_path :
      (segments : List Text) (wire : WirePath)
      → encode_path d segments ≡ ok wire
      → decode_path d wire ≡ ok (canonical_segments segments)
  unfolding encode_path decode_path
  decode_path-encode_path [] wire h = cc
  decode_path-encode_path (name ∷ []) wire h =
      let (ti, ht, e) = >>=-eq-ok (get_table_index d name) _ wire h in
      let same : table (pos ti) ≡ wire = cc in
      rw (← same, decode_path, get_table_name-index name ti ht) refl
  decode_path-encode_path (name ∷ id ∷ []) wire h =
      let (ti, ht, h') = >>=-eq-ok (get_table_index d name) _ wire h in
      let (doc, hd, e) = >>=-eq-ok (pack_id id) _ wire h' in
      let same : document (pos ti) (packed doc) ≡ wire = cc in
      rw (← same) (document_path name id ti doc ht hd)
  decode_path-encode_path (name ∷ id ∷ seg ∷ segs) wire h =
      let (ti, ht, h') = >>=-eq-ok (get_table_index d name) _ wire h in
      let (doc, hd, h'') = >>=-eq-ok (pack_id id) _ wire h' in
      let (fi, hf, e) =
        >>=-eq-ok (get_field_index d ti (join_field_path (seg ∷ segs))) _ wire h'' in
      let same : field_at (pos ti) (packed doc) (pos fi) ≡ wire = cc in
      rw (← same) (field_path name id (join_field_path (seg ∷ segs)) ti fi doc ht hd hf)
