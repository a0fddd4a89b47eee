-- ===== src/Schema/SparseLaws.antt =====
-- Sparse field arrays, encoded and decoded again.
use mathlib.Core.Option
use zyncbase.Prelude.{
  Option, ℕ, zero, suc, ◌%◌, ◌≡◌, refl, ap, inl, inr, false, some, List, [], ◌∷◌, map, arith,
  Bool-cases, length, get_elem?, ◌∙◌, ==_iff,
}
use zyncbase.Schema.{SchemaDictionary}
use zyncbase.Schema.Build.{
  includes_delimiter, field_path, build_field_index_map, build_action_entry,
}
use zyncbase.Schema.Invariant.{
  IsConsistent, Indexes, index_names-Indexes, HasPaths, IsPath, build_field_paths-HasPaths,
}
use zyncbase.Schema.PathLaws.{or_throw-eq-ok}
use zyncbase.Schema.Paths.{or_throw}
use zyncbase.Schema.Sparse.{
  encode_flat, encode_presence_user_value, encode_action_params, name_at, place, path_at,
  decode_pairs, decode_fields, decode_presence_user_value, decode_action_params,
  encode_presence_shared_value, decode_presence_shared_value,
}
use zyncbase.Errors.{Thrown}
use zyncbase.Json.{Value, num, Fields, end, field}
use zyncbase.Path.{flatten, unflatten, unflatten_into, set_deep, split_field_path}
use zyncbase.Prelude.Dict.{Dict, lookup}
use zyncbase.Prelude.Int.{pos}
use zyncbase.Prelude.Result.{ok, >>=-eq-ok}
use zyncbase.Prelude.Text.{Text}

split_field_path_whole : (k : Text) → includes_delimiter k ≡ false → split_field_path k ≡ k ∷ []
unfolding includes_delimiter split_field_path
split_field_path_whole [] h = refl
split_field_path_whole (c ∷ []) h = refl
split_field_path_whole (c ∷ d ∷ s) h = ground (arith, split_field_path_whole (d ∷ s))

get_elem?-map :
    {A B : Type 0} (f : A → B) (xs : List A) (i : ℕ) (a : A)
    → get_elem? xs i ≡ some a
    → get_elem? (map f xs) i ≡ some (f a)
get_elem?-map f [] i a h = cc
get_elem?-map f (x ∷ xs) zero a h = ap (Option.map f) h
get_elem?-map f (x ∷ xs) (suc i) a h = get_elem?-map f xs i a h

-- A field is placed where its flat key says.
place_lem :
    (k : Text) (v : Value) (result : Fields)
    → place (field_path k) k v result ≡ set_deep result (split_field_path k) v
unfolding place field_path set_deep
place_lem k v result = elim (Bool-cases (includes_delimiter k)) [
  | inl nested ↦ rw nested refl
  | inr whole ↦ rw (whole, split_field_path_whole k whole) refl
]

decode_pairs_step :
    (t : Thrown) (names : List Text) (paths : List (Option (List Text))) (result : Fields)
    (iv v : Value) (rest : List Value) (k : Text) (i : ℕ)
    → name_at names iv ≡ some (k, i)
    → path_at paths i ≡ field_path k
    → decode_pairs t names paths result (iv ∷ v ∷ rest)
      ≡ decode_pairs t names paths (set_deep result (split_field_path k) v) rest
unfolding decode_pairs
decode_pairs_step t names paths result iv v rest k i name path =
    rw (name, decode_pairs)
      (ap (λ r. decode_pairs t names paths r rest)
        (ap (λ p. place p k v result) path ∙ place_lem k v result))

path_of_IsPath : (k : Text) (path : Option (List Text)) → IsPath k path → path ≡ field_path k
unfolding field_path
path_of_IsPath k path (inl (whole, e)) = rw whole e
path_of_IsPath k path (inr (split, e)) = rw split e

module _ (names : List Text) (m : Dict ℕ) (ix : Indexes names m) (paths : List (Option (List Text)))
    (hp : HasPaths names paths) where
  name_at-lookup :
      (k : Text) (i : ℕ)
      → lookup k m ≡ some i
      → (name_at names (num (pos i)) ≡ some (k, i)) × (path_at paths i ≡ field_path k)
  name_at-lookup k i h =
      let (path, there, is) = hp k i (ix k i h) in
      (rw (ix k i h, name_at) refl, rw (there, path_at) (path_of_IsPath k path is))

  -- Decoding what was encoded sets the flat fields one by one.
  decode_pairs-encode_flat :
      (unknown : Text → Thrown) (t : Thrown) (flat result : Fields) (wire : List Value)
      → encode_flat unknown m flat ≡ ok wire
      → (decode_pairs t names paths result wire ≡ ok (unflatten_into result flat))
        × (length wire % 2 ≡ 0)
  unfolding encode_flat unflatten_into decode_pairs
  decode_pairs-encode_flat unknown t end result wire h =
      let empty : [] ≡ wire = cc in rw (← empty, decode_pairs) (refl, omega arith)
  decode_pairs-encode_flat unknown t (field k v flat) result wire h =
      let (i, known, h') = >>=-eq-ok (or_throw (lookup k m) (unknown k)) _ wire h in
      let (rest, encoded, e) = >>=-eq-ok (encode_flat unknown m flat) _ wire h' in
      let (name, path) = name_at-lookup k i (or_throw-eq-ok (lookup k m) (unknown k) i known) in
      let (decoded, even) =
        decode_pairs-encode_flat unknown t flat (set_deep result (split_field_path k) v) rest
          encoded in
      let same : num (pos i) ∷ v ∷ rest ≡ wire = cc in
      rw (← same) (
        decode_pairs_step t names paths result (num (pos i)) v rest k i name path ∙ decoded,
        omega (arith, even),
      )

  -- Decoding what was encoded gives what `unflatten` makes of the flat data.
  decode_fields-encode_flat :
      (unknown : Text → Thrown) (label message : Text) (fs : Fields) (wire : List Value)
      → encode_flat unknown m (flatten fs []) ≡ ok wire
      → decode_fields label message names paths wire ≡ ok (unflatten (flatten fs []))
  unfolding decode_fields unflatten
  decode_fields-encode_flat unknown label message fs wire h =
      let (decoded, even) = decode_pairs-encode_flat unknown _ (flatten fs []) end wire h in
      rw ((==_iff (length wire % 2) 0).1 even, decode_fields) decoded

-- What one peer encodes of user data, another with the same dictionary decodes to the flattened and
-- unflattened data.
pub decode-encode_presence_user_value :
    (d : SchemaDictionary) (fs : Fields) (wire : List Value)
    → IsConsistent d
    → encode_presence_user_value d fs ≡ ok wire
    → decode_presence_user_value d wire ≡ ok (unflatten (flatten fs []))
unfolding encode_presence_user_value decode_presence_user_value
decode-encode_presence_user_value d fs wire c h =
    (decode_fields-encode_flat d.presence_user_fields d.presence_user_field_to_index
      c.user_fields_indexed _ c.user_paths_built _ _ _ fs wire h)

pub decode-encode_presence_shared_value :
    (d : SchemaDictionary) (fs : Fields) (wire : List Value)
    → IsConsistent d
    → encode_presence_shared_value d fs ≡ ok wire
    → decode_presence_shared_value d wire ≡ ok (unflatten (flatten fs []))
unfolding encode_presence_shared_value decode_presence_shared_value
decode-encode_presence_shared_value d fs wire c h =
    (decode_fields-encode_flat d.presence_shared_fields d.presence_shared_field_to_index
      c.shared_fields_indexed _ c.shared_paths_built _ _ _ fs wire h)

pub decode-encode_action_params :
    (name : Text) (id flags : ℕ) (params returns : List Text) (fs : Fields) (wire : List Value)
    → encode_action_params (build_action_entry name id params returns flags) fs ≡ ok wire
    → decode_action_params (build_action_entry name id params returns flags) wire
      ≡ ok (unflatten (flatten fs []))
unfolding encode_action_params decode_action_params build_action_entry
decode-encode_action_params name id flags params returns fs wire h =
    decode_fields-encode_flat params (build_field_index_map params) (index_names-Indexes params) _
      (build_field_paths-HasPaths params) _ _ _ fs wire h
