-- ===== src/Compare/PackedUuid.antt =====
-- `compareDocIds` of doc_id.ts and the packed bytes of UUIDs.
use Prim.Native.Nat as Nat
use zyncbase.Compare.{compare_text, compare_doc_ids}
use zyncbase.DocId.{family}
use zyncbase.DocId.Short.{Bytes, big_int_to_bytes}
use zyncbase.DocId.Uuid.{
  hex2, parse_uuid_bytes, is_canonical, encode_uuid, payload_digits, uuid_family_tag,
}
use zyncbase.DocId.UuidText.{
  Slot, pair, gap, count_pairs, uuid_slots, spell_slots, format_slots, IsUuidV7,
  parse_uuid_bytes_lem,
}
use zyncbase.Prelude.Int.{pos, negsuc}
use zyncbase.DocId.RoundTrip.{
  big_int_to_bytes_value, length-big_int_to_bytes, big_int_to_bytes-AllBelow,
}
use zyncbase.Compare.Packed.{sign, compare_text-lex, compare_text-of_digits}
use zyncbase.Radix.{of_digits, in_base, compare-of_digits, AllBelow, AllProper, SameRadices, digits}
use zyncbase.Prelude.{
  ℕ, ◌<◌, ◌≡◌, List, arith, ltb, if◌then◌else◌, length, ◌+◌, ◌%◌, refl, sym, ap, ◌∙◌, true, [], ◌∷◌,
  ◌^◌,
}
use zyncbase.Prelude.Text.{Text}

-- Two bytes in hexadecimal compare as the bytes do.
compare_text-hex2 :
    (a b : ℕ) (s t : Text)
    → a < 256
    → b < 256
    → compare_text (hex2 a s) (hex2 b t)
      ≡ (if ltb a b then negsuc 0 else if ltb b a then pos 1 else compare_text s t)
unfolding compare_text
compare_text-hex2 a b s t ha hb = ground arith

compare_text-spell_slots :
    (sl : List Slot) (xs ys : Bytes)
    → AllBelow 256 xs
    → AllBelow 256 ys
    → length xs ≡ count_pairs sl
    → length ys ≡ count_pairs sl
    → compare_text (spell_slots sl xs) (spell_slots sl ys) ≡ compare_text xs ys
unfolding compare_text
compare_text-spell_slots [] [] [] hx hy lx ly = refl
compare_text-spell_slots [] (x ∷ xs) ys hx hy lx ly = absurd (omega arith)
compare_text-spell_slots [] [] (y ∷ ys) hx hy lx ly = absurd (omega arith)
compare_text-spell_slots (gap ∷ sl) xs ys hx hy lx ly =
    compare_text-spell_slots sl xs ys hx hy lx ly
compare_text-spell_slots (pair k ∷ sl) [] ys hx hy lx ly = absurd (omega arith)
compare_text-spell_slots (pair k ∷ sl) (x ∷ xs) [] hx hy lx ly = absurd (omega arith)
compare_text-spell_slots (pair k ∷ sl) (x ∷ xs) (y ∷ ys) (px, hx) (py, hy) lx ly =
    compare_text-hex2 x y (spell_slots sl xs) (spell_slots sl ys) px py
    ∙ rw (compare_text-spell_slots sl xs ys hx hy (omega arith) (omega arith)) refl

-- Two canonical ids compare as their bytes do.
compare_text-parse_uuid_bytes :
    (a b : Text)
    → is_canonical a ≡ true
    → is_canonical b ≡ true
    → compare_text a b ≡ compare_text (parse_uuid_bytes a) (parse_uuid_bytes b)
compare_text-parse_uuid_bytes a b ha hb =
    let (u, spelled_a) = parse_uuid_bytes_lem a ha in
    let (v, spelled_b) = parse_uuid_bytes_lem b hb in
    ap (λ s. compare_text s b) (sym spelled_a ∙ format_slots _ u.len)
    ∙ ap (compare_text (spell_slots uuid_slots (parse_uuid_bytes a)))
        (sym spelled_b ∙ format_slots _ v.len)
    ∙ compare_text-spell_slots uuid_slots (parse_uuid_bytes a) (parse_uuid_bytes b) u.below v.below
        u.len v.len

-- Place by place sums.
add_all : List ℕ → List ℕ → List ℕ
add_all [] xs = xs
add_all (o ∷ os) [] = []
add_all (o ∷ os) (x ∷ xs) = (o + x) ∷ add_all os xs

compare_text-add_all :
    (os xs ys : List ℕ) → compare_text (add_all os xs) (add_all os ys) ≡ compare_text xs ys
unfolding add_all compare_text
compare_text-add_all [] xs ys = refl
compare_text-add_all (o ∷ os) [] [] = refl
compare_text-add_all (o ∷ os) [] (y ∷ ys) = refl
compare_text-add_all (o ∷ os) (x ∷ xs) [] = refl
compare_text-add_all (o ∷ os) (x ∷ xs) (y ∷ ys) = ground (arith, compare_text-add_all os xs ys)

-- The version and the variant, which all UUIDs share, at their places.
abbrev fixed_bits : List ℕ
fixed_bits = 0 ∷ 0 ∷ 0 ∷ 0 ∷ 0 ∷ 0 ∷ 112 ∷ 0 ∷ 128 ∷ []

uuid_shape :
    (bs : Bytes)
    → IsUuidV7 bs
    → (add_all fixed_bits (digits (payload_digits bs)) ≡ bs) × AllProper (payload_digits bs)
unfolding add_all payload_digits
uuid_shape
      (b0 ∷ b1 ∷ b2 ∷ b3 ∷ b4 ∷ b5 ∷ b6 ∷ b7 ∷ b8 ∷ b9 ∷ b10 ∷ b11 ∷ b12 ∷ b13 ∷ b14 ∷ b15 ∷ []) u =
    let below = u.below in
    let version : 112 + b6 % 16 ≡ b6 = omega (arith, u.version) in
    let variant_bits : 128 + b8 % 64 ≡ b8 = omega (arith, u.variant_bits) in
    (ground arith, omega arith)
uuid_shape bs u = absurd (omega (arith, u.len))

payload_digits-SameRadices :
    (xs ys : Bytes)
    → length xs ≡ 16
    → length ys ≡ 16
    → SameRadices (payload_digits xs) (payload_digits ys)
unfolding payload_digits
payload_digits-SameRadices
      (a0 ∷ a1 ∷ a2 ∷ a3 ∷ a4 ∷ a5 ∷ a6 ∷ a7 ∷ a8 ∷ a9 ∷ a10 ∷ a11 ∷ a12 ∷ a13 ∷ a14 ∷ a15 ∷ [])
      (b0 ∷ b1 ∷ b2 ∷ b3 ∷ b4 ∷ b5 ∷ b6 ∷ b7 ∷ b8 ∷ b9 ∷ b10 ∷ b11 ∷ b12 ∷ b13 ∷ b14 ∷ b15 ∷ []) la
      lb =
    omega arith
payload_digits-SameRadices xs ys la lb = absurd (omega arith)

uuid_value-lt :
    (bs : Bytes) → IsUuidV7 bs → uuid_family_tag + of_digits 0 (payload_digits bs) < 2 ^ 128
unfolding of_digits payload_digits
uuid_value-lt
      (b0 ∷ b1 ∷ b2 ∷ b3 ∷ b4 ∷ b5 ∷ b6 ∷ b7 ∷ b8 ∷ b9 ∷ b10 ∷ b11 ∷ b12 ∷ b13 ∷ b14 ∷ b15 ∷ []) u =
    let below = u.below in omega arith
uuid_value-lt bs u = absurd (omega (arith, u.len))

compare_shift : (t p q : ℕ) → Nat.compare (t + p) (t + q) ≡ Nat.compare p q
compare_shift t p q = ground arith

-- The packed bytes of two UUIDs compare as their own bytes.
compare_text-payload :
    (xs ys : Bytes)
    → IsUuidV7 xs
    → IsUuidV7 ys
    → compare_text
        (big_int_to_bytes (uuid_family_tag + of_digits 0 (payload_digits xs)))
        (big_int_to_bytes (uuid_family_tag + of_digits 0 (payload_digits ys)))
      ≡ compare_text xs ys
compare_text-payload xs ys u v =
    let p = of_digits 0 (payload_digits xs) in
    let q = of_digits 0 (payload_digits ys) in
    let tag = uuid_family_tag in
    let (same_x, proper_x) = uuid_shape xs u in
    let (same_y, proper_y) = uuid_shape ys v in
    let values =
      compare_text-of_digits 256 (big_int_to_bytes (tag + p)) (big_int_to_bytes (tag + q))
        (big_int_to_bytes-AllBelow (tag + p)) (big_int_to_bytes-AllBelow (tag + q))
        (length-big_int_to_bytes (tag + p) ∙ sym (length-big_int_to_bytes (tag + q))) in
    let read_x = big_int_to_bytes_value (tag + p) (uuid_value-lt xs u) in
    let read_y = big_int_to_bytes_value (tag + q) (uuid_value-lt ys v) in
    let payloads =
      compare-of_digits 0 (payload_digits xs) (payload_digits ys) proper_x proper_y
        (payload_digits-SameRadices xs ys u.len v.len) in
    values
    ∙ ap (λ n. sign (Nat.compare n (of_digits 0 (in_base 256 (big_int_to_bytes (tag + q)))))) read_x
    ∙ ap (λ n. sign (Nat.compare (tag + p) n)) read_y
    ∙ ap sign (compare_shift tag p q ∙ payloads)
    ∙ sym (compare_text-lex (digits (payload_digits xs)) (digits (payload_digits ys)))
    ∙ sym
        (compare_text-add_all fixed_bits (digits (payload_digits xs)) (digits (payload_digits ys)))
    ∙ ap (λ s. compare_text s (add_all fixed_bits (digits (payload_digits ys)))) same_x
    ∙ ap (compare_text xs) same_y

-- For two canonical UUIDs `compareDocIds` is the comparison of their packed bytes, the first byte
-- that differs deciding.
pub compare_doc_ids-encode_uuid :
    (a b : Text)
    → is_canonical a ≡ true
    → is_canonical b ≡ true
    → compare_doc_ids a b ≡ compare_text (encode_uuid a) (encode_uuid b)
unfolding compare_doc_ids encode_uuid family
compare_doc_ids-encode_uuid a b ha hb =
    let (u, _) = parse_uuid_bytes_lem a ha in
    let (v, _) = parse_uuid_bytes_lem b hb in
    rw (ha, hb)
      (compare_text-parse_uuid_bytes a b ha hb
        ∙ sym (compare_text-payload (parse_uuid_bytes a) (parse_uuid_bytes b) u v))
