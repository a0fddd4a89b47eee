-- ===== src/Tests/Documents.antt =====
-- Runs of path.ts and doc_id.ts of sdk/typescript/src, and their theorems at concrete inputs.
use zyncbase.Prelude.{◌≡◌, refl, some, List, [], ◌∷◌}
use zyncbase.Prelude.Result.{ok, err}
use zyncbase.Prelude.Int.{pos}
use zyncbase.Errors.{invalid_path}
use zyncbase.Json.{num, obj, Fields, end, field, get_prop}
use zyncbase.Path.{set_deep, get_deep, flatten, unflatten}
use zyncbase.Path.Deep.{get_deep-set_deep}
use zyncbase.DocId.{pack_doc_id, unpack_doc_id}
use zyncbase.DocId.Caching.{IsValid, no_caches, no_caches-IsValid, unpack_doc_id-cached}
use zyncbase.DocId.RoundTrip.{unpack-pack_doc_id}
use zyncbase.DocId.Short.{Bytes}
use zyncbase.Prelude.Text.{Text, text, text_eq}

abbrev cursor : Fields
cursor = field (text "cursor") (obj (field (text "x") (num (pos 1)) end)) end

abbrev cursor_y : List Text
cursor_y = text "cursor" ∷ text "y" ∷ []

abbrev cursor_x : List Text
cursor_x = text "cursor" ∷ text "x" ∷ []

flatten_test : flatten cursor [] ≡ field (text "cursor__x") (num (pos 1)) end
unfolding flatten
flatten_test = refl

unflatten_test : unflatten (flatten cursor []) ≡ cursor
unfolding flatten unflatten
unflatten_test = refl

get_deep-set_deep_example :
    get_deep (obj (set_deep cursor cursor_y (num (pos 2)))) cursor_y ≡ some (num (pos 2))
unfolding get_prop text_eq
get_deep-set_deep_example =
    get_deep-set_deep cursor_y cursor (num (pos 2)) (field (text "x") (num (pos 1)) end, refl, tt)

-- What `pack_doc_id` returns; the bytes of an error are none.
abbrev packed_of : Text → Bytes
packed_of id = elim (pack_doc_id id invalid_path) [ ok bs ↦ bs | err e ↦ [] ]

abbrev uuid : Text
uuid = text "0190a1b2-c3d4-7e5f-8a9b-0c1d2e3f4a5b"

pack_tests :
    (pack_doc_id uuid invalid_path
      ≡ ok
          (128 ∷ 6 ∷ 66 ∷ 134 ∷ 203 ∷ 15 ∷ 83 ∷ 151 ∷ 202 ∷ 155 ∷ 12 ∷ 29 ∷ 46 ∷ 63 ∷ 74 ∷ 91 ∷ []))
    × ((unpack_doc_id no_caches (packed_of uuid)).0 ≡ ok uuid)
unfolding pack_doc_id unpack_doc_id
pack_tests = (refl, refl)

unpack-pack_doc_id_example :
    ((unpack_doc_id no_caches (packed_of uuid)).0 ≡ ok uuid)
    × IsValid (unpack_doc_id no_caches (packed_of uuid)).1
unfolding pack_doc_id
unpack-pack_doc_id_example =
    unpack-pack_doc_id uuid invalid_path (packed_of uuid) no_caches no_caches-IsValid refl

unpack_doc_id-cached_example :
    ((unpack_doc_id (unpack_doc_id no_caches (packed_of uuid)).1 (packed_of uuid)).0
      ≡ (unpack_doc_id no_caches (packed_of uuid)).0)
    × IsValid (unpack_doc_id (unpack_doc_id no_caches (packed_of uuid)).1 (packed_of uuid)).1
unpack_doc_id-cached_example =
    unpack_doc_id-cached (unpack_doc_id no_caches (packed_of uuid)).1 (packed_of uuid)
      (unpack_doc_id-cached no_caches (packed_of uuid) no_caches-IsValid).1
