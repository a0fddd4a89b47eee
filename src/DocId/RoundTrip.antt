-- ===== src/DocId/RoundTrip.antt =====
-- `packDocId` followed by `unpackDocId` of doc_id.ts.
use zyncbase.Radix.Bounds.{
  SameRadices-in_base, of_digits-lt_one, length-to_digits, to_digits-AllBelow, to_digits-rest,
}
use zyncbase.DocId.UuidLaws.{packed_bytes, packed_value, packed-AllBelow, restore-packed}
use zyncbase.DocId.UuidText.{IsUuidV7, parse_uuid_bytes_lem}
use zyncbase.DocId.Uuid.{
  is_canonical, encode_uuid, decode_uuid, restore_bytes, reserved_bits_clear, payload_digits,
  uuid_family_tag, format_uuid_bytes, parse_uuid_bytes,
}
use zyncbase.Errors.{ErrorCode}
use zyncbase.DocId.{
  pack_doc_id, Caches, remember_uuid, decode_uuid_cached, encode_short, ok, unpack_doc_id,
  remember_short,
}
use zyncbase.DocId.ShortLaws.{
  char_digit-bounds, digit_or_zero_known, spell-short_digits, length-short_digits,
  short_digits-AllBelow,
}
use zyncbase.Radix.{
  in_base-AllProper, of_digits-lt, to_digits-of_digits, of_digits, in_base, to_digits, AllBelow,
  of_digits-to_digits,
}
use zyncbase.DocId.Caching.{no_caches, IsValid, unpack_doc_id-cached}
use zyncbase.DocId.Short.{
  encode_short, spell, char_digit, Bytes, known_chars, is_valid_short, short_digits,
  big_int_to_bytes, decode_short,
}
use mathlib.Core.List.{append-nil}
use zyncbase.Prelude.{
  ℕ, ◌^◌, ◌≤◌, ◌<◌, ◌≡◌, sym, ap, ◌∙◌, true, false, some, [], ◌∷◌, arith, leb, ◌==◌, length, get_or,
  ◌+◌, ◌*◌, inl, inr, not, ◌||◌, none, List, if◌then◌else◌, leb→le, Bool-cases, Option-cases,
  is_some, replicate, ==_iff, ◌/◌, ◌%◌, refl,
}
use zyncbase.Prelude.Text.{Text, text}
use zyncbase.Prelude.Result.{err}

-- Sixteen bytes hold every number below 2 ^ 128.
pub big_int_to_bytes_value :
    (v : ℕ) → v < 2 ^ 128 → of_digits 0 (in_base 256 (big_int_to_bytes v)) ≡ v
unfolding big_int_to_bytes of_digits
big_int_to_bytes_value v h =
    ap (λ r. of_digits r (in_base 256 (to_digits 256 16 v []).1))
      (sym (to_digits-rest 256 16 v [] h))
    ∙ of_digits-to_digits 256 16 v []

pub length-big_int_to_bytes : (v : ℕ) → length (big_int_to_bytes v) ≡ 16
unfolding big_int_to_bytes
length-big_int_to_bytes v = length-to_digits 256 16 v []

pub big_int_to_bytes-AllBelow : (v : ℕ) → AllBelow 256 (big_int_to_bytes v)
unfolding big_int_to_bytes
big_int_to_bytes-AllBelow v = to_digits-AllBelow 256 16 v [] (omega arith) tt

pub first_byte :
    (bs : Bytes) (v : ℕ)
    → length bs ≡ 16
    → of_digits 0 (in_base 256 bs) ≡ v
    → v < 2 ^ 127
    → leb 128 (get_or bs 0 0) ≡ false
unfolding of_digits
first_byte [] v len e h = absurd (omega arith)
first_byte (b ∷ bs) v len e h = elim (Bool-cases (leb 128 b)) [
  | inr small ↦ small
  | inl large ↦ absurd (
      omega (
        arith,
        leb→le 128 b large,
        of_digits-lt 127 (0 * 256 + b) (in_base 256 (replicate 15 255)) (in_base 256 bs)
            (omega (arith, leb→le 128 b large))
            (in_base-AllProper 256 (replicate 15 255) (omega arith))
            (SameRadices-in_base 256 (replicate 15 255) bs (omega arith)),
        e,
      ))
]

pub short_value-lt : (id : Text) → of_digits 0 (in_base 39 (short_digits 24 id)) < 2 ^ 127
unfolding of_digits
short_value-lt id = omega (
  arith,
  of_digits-lt_one 39 24 (short_digits 24 id) (length-short_digits 24 id)
      (short_digits-AllBelow 24 id),
)

nonzero : (d : ℕ) → 0 < d → (d == 0) ≡ false
nonzero d h = ground arith

known_first : (c : ℕ) (id : Text) → is_valid_short (c ∷ id) ≡ true → is_some (char_digit c) ≡ true
unfolding is_valid_short
known_first c id h = ground arith

short_digits-first :
    (id : Text) → is_valid_short id ≡ true → (get_or (short_digits 24 id) 0 0 == 0) ≡ false
unfolding is_valid_short short_digits
short_digits-first [] h = cc
short_digits-first (c ∷ id) h = elim (Option-cases (char_digit c)) [
  | inl unknown ↦ cc (rw unknown at (known_first c id h))
  | inr (d, known) ↦ rw (digit_or_zero_known c d known) (nonzero d (char_digit-bounds c d known).0)
]

is_valid_short-parts :
    (id : Text) → is_valid_short id ≡ true → (known_chars id ≡ true) × (length id ≤ 24)
unfolding is_valid_short
is_valid_short-parts id h = ground arith

plus_zero : (n : ℕ) → n ≡ 24 → n + 0 ≡ 24
plus_zero n h = omega arith

full_run :
    (ds : List ℕ)
    → length ds ≡ 24
    → AllBelow 39 ds
    → to_digits 39 24 (of_digits 0 (in_base 39 ds)) [] ≡ (0, ds)
unfolding to_digits
full_run ds len h =
    ap (λ n. to_digits 39 n (of_digits 0 (in_base 39 ds)) []) (sym (plus_zero (length ds) len))
    ∙ to_digits-of_digits 39 0 0 ds [] h
    ∙ ap (λ l. (0, l)) (append-nil ds)

-- Decoding the number of a valid short id gives the id.
pub decode_short_lem :
    (id : Text)
    → is_valid_short id ≡ true
    → decode_short (of_digits 0 (in_base 39 (short_digits 24 id))) ≡ ok id
unfolding decode_short
decode_short_lem id h =
    let ds = short_digits 24 id in
    let (known, len) = is_valid_short-parts id h in
    ap
      (λ r.
        if not (r.0 == 0) || get_or r.1 0 0 == 0
        then err (text "Invalid packed short document ID")
        else elim (spell false r.1) [
          | none ↦ err (text "Invalid non-canonical short document ID")
          | some s ↦ ok s
        ])
      (full_run ds (length-short_digits 24 id) (short_digits-AllBelow 24 id))
    ∙ rw (short_digits-first id h, spell-short_digits 24 id known len) refl

short_miss :
    (bs : Bytes) (id : Text)
    → decode_short (of_digits 0 (in_base 256 bs)) ≡ ok id
    → (remember_short no_caches bs).0 ≡ ok id
unfolding remember_short
short_miss bs id decoded = rw (decoded, remember_short)

unpack_short :
    (bs : Bytes) (id : Text)
    → length bs ≡ 16
    → leb 128 (get_or bs 0 0) ≡ false
    → decode_short (of_digits 0 (in_base 256 bs)) ≡ ok id
    → (unpack_doc_id no_caches bs).0 ≡ ok id
unfolding unpack_doc_id
unpack_short bs id len small decoded =
    rw ((==_iff _ _).1 len, small, unpack_doc_id) (short_miss bs id decoded)

-- Unpacking a packed short id gives the id back, with empty caches.
pub unpack-encode_short :
    (id : Text) → is_valid_short id ≡ true → (unpack_doc_id no_caches (encode_short id)).0 ≡ ok id
unfolding encode_short
unpack-encode_short id h =
    let v = of_digits 0 (in_base 39 (short_digits 24 id)) in
    let small = short_value-lt id in
    let value = big_int_to_bytes_value v (omega (arith, small)) in
    unpack_short (big_int_to_bytes v) id (length-big_int_to_bytes v)
      (first_byte (big_int_to_bytes v) v (length-big_int_to_bytes v) value small)
      (ap decode_short value ∙ decode_short_lem id h)

sixteen : (n : ℕ) → n ≡ 16 → n + 0 ≡ 16
sixteen n h = omega arith

bytes_inverse :
    (bs : Bytes)
    → length bs ≡ 16
    → AllBelow 256 bs
    → big_int_to_bytes (of_digits 0 (in_base 256 bs)) ≡ bs
unfolding big_int_to_bytes
bytes_inverse bs len h =
    ap (λ n. (to_digits 256 n (of_digits 0 (in_base 256 bs)) []).1) (sym (sixteen (length bs) len))
    ∙ ap (λ r. r.1) (to_digits-of_digits 256 0 0 bs [] h)
    ∙ append-nil bs

le→leb : (a b : ℕ) → a ≤ b → leb a b ≡ true
le→leb a b h = ground arith

reserved_clear : (b : ℕ) → b < 256 → ((128 + b / 64) / 4 % 32 == 0) ≡ true
reserved_clear b h = ground arith

pub encode_bytes :
    (bs : Bytes)
    → IsUuidV7 bs
    → (big_int_to_bytes (uuid_family_tag + of_digits 0 (payload_digits bs)) ≡ packed_bytes bs)
      × (restore_bytes (packed_bytes bs) ≡ bs)
      × (length (packed_bytes bs) ≡ 16)
      × (leb 128 (get_or (packed_bytes bs) 0 0) ≡ true)
      × (reserved_bits_clear (packed_bytes bs) ≡ true)
unfolding reserved_bits_clear
encode_bytes
      (b0 ∷ b1 ∷ b2 ∷ b3 ∷ b4 ∷ b5 ∷ b6 ∷ b7 ∷ b8 ∷ b9 ∷ b10 ∷ b11 ∷ b12 ∷ b13 ∷ b14 ∷ b15 ∷ []) u =
    (
      ap big_int_to_bytes
            (sym (packed_value b0 b1 b2 b3 b4 b5 b6 b7 b8 b9 b10 b11 b12 b13 b14 b15 u.below))
          ∙ bytes_inverse _ refl
              (packed-AllBelow b0 b1 b2 b3 b4 b5 b6 b7 b8 b9 b10 b11 b12 b13 b14 b15 u.below),
      restore-packed b0 b1 b2 b3 b4 b5 b6 b7 b8 b9 b10 b11 b12 b13 b14 b15 u.below u.version
          u.variant_bits,
      refl,
      le→leb 128 (128 + b0 / 64) (omega arith),
      reserved_clear b0 u.below.0,
    )
encode_bytes bs u = absurd (omega (arith, u.len))

unpack_uuid :
    (packed : Bytes)
    → length packed ≡ 16
    → leb 128 (get_or packed 0 0) ≡ true
    → reserved_bits_clear packed ≡ true
    → (unpack_doc_id no_caches packed).0 ≡ ok (decode_uuid packed)
unfolding unpack_doc_id remember_uuid
unpack_uuid packed len family clear =
    rw ((==_iff _ _).1 len, family, unpack_doc_id, clear, decode_uuid_cached)

-- Unpacking a packed UUIDv7 gives the id back, with empty caches.
pub unpack-encode_uuid :
    (id : Text) → is_canonical id ≡ true → (unpack_doc_id no_caches (encode_uuid id)).0 ≡ ok id
unfolding encode_uuid decode_uuid
unpack-encode_uuid id h =
    let (u, formatted) = parse_uuid_bytes_lem id h in
    let (packed, restored, len, family, clear) = encode_bytes (parse_uuid_bytes id) u in
    ap (λ bs. (unpack_doc_id no_caches bs).0) packed
    ∙ unpack_uuid (packed_bytes (parse_uuid_bytes id)) len family clear
    ∙ ap ok (ap format_uuid_bytes restored ∙ formatted)

unpack-packed :
    (id : Text) (code : ErrorCode) (packed : Bytes)
    → pack_doc_id id code ≡ ok packed
    → (unpack_doc_id no_caches packed).0 ≡ ok id
unfolding pack_doc_id
unpack-packed id code packed h = elim (Bool-cases (is_canonical id)) [
  | inl uuid ↦
      let e : encode_uuid id ≡ packed = cc (rw uuid at h) in rw (← e) (unpack-encode_uuid id uuid)
  | inr other ↦ elim (Bool-cases (is_valid_short id)) [
    | inl short ↦
        let e : encode_short id ≡ packed = cc (rw (other, short) at h) in
        rw (← e) (unpack-encode_short id short)
    | inr neither ↦ cc (rw (other, neither) at h)
  ]
]

-- Every id that `packDocId` accepts comes back from its packed bytes, whatever was decoded before,
-- and so does every later id.
pub unpack-pack_doc_id :
    (id : Text) (code : ErrorCode) (packed : Bytes) (c : Caches)
    → IsValid c
    → pack_doc_id id code ≡ ok packed
    → ((unpack_doc_id c packed).0 ≡ ok id) × IsValid (unpack_doc_id c packed).1
unpack-pack_doc_id id code packed c v h =
    let (same, valid) = unpack_doc_id-cached c packed v in
    (same ∙ unpack-packed id code packed h, valid)
