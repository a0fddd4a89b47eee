-- ===== src/Compare/PackedOrder.antt =====
-- `compareDocIds` and `packDocId` of doc_id.ts, for ids of both families.
use zyncbase.Compare.{compare_text, compare_doc_ids}
use zyncbase.Compare.Packed.{family_short, compare_doc_ids-encode_short}
use zyncbase.Compare.PackedUuid.{compare_doc_ids-encode_uuid}
use zyncbase.DocId.{family, pack_doc_id}
use zyncbase.DocId.Short.{Bytes, is_valid_short, encode_short, big_int_to_bytes, short_digits}
use zyncbase.DocId.Uuid.{
  is_canonical, encode_uuid, parse_uuid_bytes, payload_digits, uuid_family_tag,
}
use zyncbase.DocId.UuidText.{parse_uuid_bytes_lem}
use zyncbase.DocId.RoundTrip.{
  big_int_to_bytes_value, length-big_int_to_bytes, short_value-lt, first_byte, encode_bytes,
}
use zyncbase.Errors.{ErrorCode}
use zyncbase.Prelude.Int.{pos, negsuc, ◌-ℤ◌}
use zyncbase.Prelude.Result.{ok}
use zyncbase.Radix.{of_digits, in_base}
use zyncbase.Prelude.{
  ◌≡◌, refl, ap, ◌∙◌, ◌⊎◌, inl, inr, true, false, [], ◌∷◌, arith, leb, Bool-cases, length, get_or,
  ◌+◌,
}
use zyncbase.Prelude.Text.{Text}

-- The first byte tells the families apart.
encode_short-first : (id : Text) → leb 128 (get_or (encode_short id) 0 0) ≡ false
unfolding encode_short
encode_short-first id =
    let v = of_digits 0 (in_base 39 (short_digits 24 id)) in
    let small = short_value-lt id in
    first_byte (big_int_to_bytes v) v (length-big_int_to_bytes v)
      (big_int_to_bytes_value v (omega (arith, small))) small

encode_uuid-first :
    (id : Text) → is_canonical id ≡ true → leb 128 (get_or (encode_uuid id) 0 0) ≡ true
unfolding encode_uuid
encode_uuid-first id h =
    let (u, _) = parse_uuid_bytes_lem id h in
    let (packed, _, _, large, _) = encode_bytes (parse_uuid_bytes id) u in
    ap (λ bs. leb 128 (get_or bs 0 0)) packed ∙ large

compare_text-first :
    (xs ys : Bytes)
    → length xs ≡ 16
    → length ys ≡ 16
    → leb 128 (get_or xs 0 0) ≡ false
    → leb 128 (get_or ys 0 0) ≡ true
    → (compare_text xs ys ≡ negsuc 0) × (compare_text ys xs ≡ pos 1)
unfolding compare_text
compare_text-first [] ys lx ly small large = absurd (omega arith)
compare_text-first (x ∷ xs) [] lx ly small large = absurd (omega arith)
compare_text-first (x ∷ xs) (y ∷ ys) lx ly small large = (ground arith, ground arith)

length-encode_short : (id : Text) → length (encode_short id) ≡ 16
unfolding encode_short
length-encode_short id = length-big_int_to_bytes (of_digits 0 (in_base 39 (short_digits 24 id)))

length-encode_uuid : (id : Text) → length (encode_uuid id) ≡ 16
unfolding encode_uuid
length-encode_uuid id =
    length-big_int_to_bytes (uuid_family_tag + of_digits 0 (payload_digits (parse_uuid_bytes id)))

family_uuid : (id : Text) → is_canonical id ≡ true → family id ≡ 1
unfolding family
family_uuid id h = rw (h, family) refl

short_below_uuid :
    (a b : Text)
    → is_valid_short a ≡ true
    → is_canonical b ≡ true
    → (compare_doc_ids a b ≡ compare_text (encode_short a) (encode_uuid b))
      × (compare_doc_ids b a ≡ compare_text (encode_uuid b) (encode_short a))
unfolding compare_doc_ids ◌-ℤ◌
short_below_uuid a b ha hb =
    let (less, more) =
      compare_text-first (encode_short a) (encode_uuid b) (length-encode_short a)
        (length-encode_uuid b) (encode_short-first a) (encode_uuid-first b hb) in
    (
      rw (family_short a ha, family_uuid b hb, less) refl,
      rw (family_short a ha, family_uuid b hb, more) refl,
    )

-- What `packDocId` accepts, and its result.
packed_cases :
    (id : Text) (code : ErrorCode) (packed : Bytes)
    → pack_doc_id id code ≡ ok packed
    → ((is_canonical id ≡ true) × (encode_uuid id ≡ packed))
      ⊎ ((is_valid_short id ≡ true) × (encode_short id ≡ packed))
unfolding pack_doc_id
packed_cases id code packed h = elim (Bool-cases (is_canonical id)) [
  | inl uuid ↦ inl (uuid, cc (rw uuid at h))
  | inr other ↦ elim (Bool-cases (is_valid_short id)) [
    | inl short ↦ inr (short, cc (rw (other, short) at h))
    | inr neither ↦ cc (rw (other, neither) at h)
  ]
]

-- For any two ids that `packDocId` accepts, `compareDocIds` is the comparison of their packed bytes,
-- the first byte that differs deciding.
pub compare_doc_ids-pack_doc_id :
    (a b : Text) (code : ErrorCode) (packed_a packed_b : Bytes)
    → pack_doc_id a code ≡ ok packed_a
    → pack_doc_id b code ≡ ok packed_b
    → compare_doc_ids a b ≡ compare_text packed_a packed_b
compare_doc_ids-pack_doc_id a b code packed_a packed_b ha hb =
    elim (packed_cases a code packed_a ha) [
      | inl (uuid_a, e) ↦ elim (packed_cases b code packed_b hb) [
        | inl (uuid_b, e') ↦ rw (← e, ← e') (compare_doc_ids-encode_uuid a b uuid_a uuid_b)
        | inr (short_b, e') ↦ rw (← e, ← e') (short_below_uuid b a short_b uuid_a).1
      ]
      | inr (short_a, e) ↦ elim (packed_cases b code packed_b hb) [
        | inl (uuid_b, e') ↦ rw (← e, ← e') (short_below_uuid a b short_a uuid_b).0
        | inr (short_b, e') ↦ rw (← e, ← e') (compare_doc_ids-encode_short a b short_a short_b)
      ]
    ]
