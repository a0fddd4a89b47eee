-- ===== src/Compare/Packed.antt =====
-- `compareDocIds` of doc_id.ts and the packed bytes of short ids.
use Prim.Native.Nat as Nat
use zyncbase.Radix.Bounds.{SameRadices-in_base}
use zyncbase.DocId.Uuid.{Class, fits, matches, uuid_v7, is_canonical}
use zyncbase.Radix.{in_base-AllProper, of_digits, in_base, digits, lex, compare-of_digits, AllBelow}
use zyncbase.Compare.{compare_text, compare_doc_ids}
use zyncbase.DocId.{family}
use zyncbase.DocId.Short.{
  alphabet, char_digit, known_chars, digit_or_zero, is_valid_short, short_digits, big_int_to_bytes,
  encode_short,
}
use zyncbase.DocId.ShortLaws.{
  char_digit-bounds, digit_or_zero_known, short_digits-AllBelow, length-short_digits,
}
use zyncbase.DocId.RoundTrip.{
  big_int_to_bytes_value, length-big_int_to_bytes, big_int_to_bytes-AllBelow, short_value-lt,
}
use zyncbase.Prelude.Int.{ℤ, pos, negsuc}
use Prim.Native.Nat.{Ordering, lt, gt, eq}
use zyncbase.Prelude.{
  ℕ, zero, suc, ◌<◌, ◌≡◌, refl, sym, ap, ◌∙◌, Bool, true, ◌&&◌, List, [], ◌∷◌, arith, ltb, length,
  get_or, ◌-◌, ◌≤◌, some, ◌⊎◌, inl, inr, if◌then◌else◌, Option-cases, Bool-cases,
}
use zyncbase.Prelude.Text.{Text}

-- The result of a comparison as a comparator gives it.
abbrev pub sign : Ordering → ℤ
sign lt = negsuc 0
sign gt = pos 1
sign eq = pos 0

pub compare_text-lex : (xs ys : List ℕ) → compare_text xs ys ≡ sign (lex xs ys)
unfolding compare_text lex
compare_text-lex [] [] = refl
compare_text-lex [] (y ∷ ys) = refl
compare_text-lex (x ∷ xs) [] = refl
compare_text-lex (x ∷ xs) (y ∷ ys) = ground (arith, compare_text-lex xs ys)

digits-in_base : (base : ℕ) (xs : List ℕ) → digits (in_base base xs) ≡ xs
digits-in_base base [] = refl
digits-in_base base (x ∷ xs) = ap (◌∷◌ x) (digits-in_base base xs)

-- Two digit sequences of one length and base compare as the numbers do.
pub compare_text-of_digits :
    (base : ℕ) (xs ys : List ℕ)
    → AllBelow base xs
    → AllBelow base ys
    → length xs ≡ length ys
    → compare_text xs ys
      ≡ sign (Nat.compare (of_digits 0 (in_base base xs)) (of_digits 0 (in_base base ys)))
compare_text-of_digits base xs ys px py len =
    let same =
      compare-of_digits 0 (in_base base xs) (in_base base ys) (in_base-AllProper base xs px)
        (in_base-AllProper base ys py) (SameRadices-in_base base xs ys len) in
    compare_text-lex xs ys
    ∙ ap sign (sym (rw (digits-in_base base xs, digits-in_base base ys) at same))

is_ascending : List ℕ → Bool
is_ascending [] = true
is_ascending (x ∷ []) = true
is_ascending (x ∷ y ∷ xs) = let rest = is_ascending (y ∷ xs) in ltb x y && rest

ascending :
    (xs : List ℕ) (i j : ℕ)
    → is_ascending xs ≡ true
    → i < j
    → j < length xs
    → get_or xs i 0 < get_or xs j 0
unfolding is_ascending
ascending [] i j h below len = absurd (ground arith)
ascending (x ∷ []) i j h below len = absurd (ground arith)
ascending (x ∷ y ∷ xs) zero zero h below len = absurd (omega arith)
ascending (x ∷ y ∷ xs) zero (suc zero) h below len = ground arith
ascending (x ∷ y ∷ xs) zero (suc (suc j)) h below len =
    let above = ascending (y ∷ xs) zero (suc j) (ground arith) (omega arith) (ground arith) in
    ground arith
ascending (x ∷ y ∷ xs) (suc i) zero h below len = absurd (omega arith)
ascending (x ∷ y ∷ xs) (suc i) (suc j) h below len =
    ascending (y ∷ xs) i j (ground arith) (omega arith) (ground arith)

alphabet_ascending : is_ascending alphabet ≡ true
unfolding is_ascending
alphabet_ascending = refl

-- The digits of the alphabet are in the order of its characters.
char_digit_mono :
    (c c' d d' : ℕ) → char_digit c ≡ some d → char_digit c' ≡ some d' → d < d' → c < c'
char_digit_mono c c' d d' h h' below =
    let (p, q, e) = char_digit-bounds c d h in
    let (p', q', e') = char_digit-bounds c' d' h' in
    let step =
      ascending alphabet (d - 1) (d' - 1) alphabet_ascending (omega (arith, p, p', below))
        (omega (arith, p', q')) in
    rw (e, e') at step

char_digit_same : (c c' d : ℕ) → char_digit c ≡ some d → char_digit c' ≡ some d → c ≡ c'
char_digit_same c c' d h h' = sym (char_digit-bounds c d h).2 ∙ (char_digit-bounds c' d h').2

known_head :
    (c : ℕ) (s : Text)
    → known_chars (c ∷ s) ≡ true
    → (k : ℕ) × (char_digit c ≡ some k) × (digit_or_zero c ≡ k) × (0 < k) × (known_chars s ≡ true)
known_head c s h = elim (Option-cases (char_digit c)) [
  | inl unknown ↦ cc (rw unknown at h)
  | inr (k, known) ↦
      (k, known, digit_or_zero_known c k known, (char_digit-bounds c k known).0, rw known at h)
]

digit_order : (a b : ℕ) → (a < b) ⊎ (b < a) ⊎ (a ≡ b)
digit_order a b = ground arith

-- Characters compare as their digits.
step_order :
    (c d k l : ℕ) (x y : ℤ)
    → char_digit c ≡ some k
    → char_digit d ≡ some l
    → x ≡ y
    → (if ltb k l then negsuc 0 else if ltb l k then pos 1 else x)
      ≡ (if ltb c d then negsuc 0 else if ltb d c then pos 1 else y)
step_order c d k l x y hk hl same = elim (digit_order k l) [
  | inl below ↦ let chars = char_digit_mono c d k l hk hl below in ground arith
  | inr (inl above) ↦ let chars = char_digit_mono d c l k hl hk above in ground arith
  | inr (inr equal) ↦ let chars = char_digit_same c d k hk (rw (← equal) at hl) in ground arith
]

-- The padding stands below every character, as the end of a text does.
compare_text-short_digits :
    (n : ℕ) (s t : Text)
    → known_chars s ≡ true
    → known_chars t ≡ true
    → length s ≤ n
    → length t ≤ n
    → compare_text (short_digits n s) (short_digits n t) ≡ compare_text s t
unfolding short_digits compare_text
compare_text-short_digits zero [] [] hs ht ls len = refl
compare_text-short_digits zero [] (d ∷ t) hs ht ls len = absurd (omega arith)
compare_text-short_digits zero (c ∷ s) t hs ht ls len = absurd (omega arith)
compare_text-short_digits (suc n) [] [] hs ht ls len =
    compare_text-short_digits n [] [] refl refl (omega arith) (omega arith)
compare_text-short_digits (suc n) [] (d ∷ t) hs ht ls len =
    let (l, known, digit, positive, tail) = known_head d t ht in rw (digit) (ground arith)
compare_text-short_digits (suc n) (c ∷ s) [] hs ht ls len =
    let (k, known, digit, positive, tail) = known_head c s hs in rw (digit) (ground arith)
compare_text-short_digits (suc n) (c ∷ s) (d ∷ t) hs ht ls len =
    let (k, hk, digit, _, hs') = known_head c s hs in
    let (l, hl, digit', _, ht') = known_head d t ht in
    rw (digit, digit')
      (step_order c d k l _ _ hk hl
        (compare_text-short_digits n s t hs' ht' (omega arith) (omega arith)))

short_parts : (id : Text) → is_valid_short id ≡ true → (known_chars id ≡ true) × (length id ≤ 24)
unfolding is_valid_short
short_parts id h = ground arith

and_right : (a b : Bool) → (a && b) ≡ true → b ≡ true
and_right a b h = ground arith

matches-length : (ks : List Class) (s : Text) → matches ks s ≡ true → length s ≡ length ks
matches-length [] [] h = refl
matches-length [] (c ∷ s) h = cc
matches-length (k ∷ ks) [] h = cc
matches-length (k ∷ ks) (c ∷ s) h = ap suc (matches-length ks s (and_right (fits k c) _ h))

pub family_short : (id : Text) → is_valid_short id ≡ true → family id ≡ 0
unfolding family is_canonical
family_short id h = elim (Bool-cases (is_canonical id)) [
  | inl uuid ↦
      let long = matches-length uuid_v7 id uuid in
      absurd (omega (arith, long, (short_parts id h).1))
  | inr other ↦ rw (other, h, family) refl
]

-- The packed bytes of two short ids compare as the numbers that they hold.
compare_text-encode_short :
    (a b : Text)
    → is_valid_short a ≡ true
    → is_valid_short b ≡ true
    → compare_text (encode_short a) (encode_short b) ≡ compare_text a b
unfolding encode_short
compare_text-encode_short a b ha hb =
    let value_a = of_digits 0 (in_base 39 (short_digits 24 a)) in
    let value_b = of_digits 0 (in_base 39 (short_digits 24 b)) in
    let bytes =
      compare_text-of_digits 256 (big_int_to_bytes value_a) (big_int_to_bytes value_b)
        (big_int_to_bytes-AllBelow value_a) (big_int_to_bytes-AllBelow value_b)
        (length-big_int_to_bytes value_a ∙ sym (length-big_int_to_bytes value_b)) in
    let read_a = big_int_to_bytes_value value_a (omega (arith, short_value-lt a)) in
    let read_b = big_int_to_bytes_value value_b (omega (arith, short_value-lt b)) in
    let digit_order =
      compare_text-of_digits 39 (short_digits 24 a) (short_digits 24 b) (short_digits-AllBelow 24 a)
        (short_digits-AllBelow 24 b) (length-short_digits 24 a ∙ sym (length-short_digits 24 b)) in
    let (known_a, len_a) = short_parts a ha in
    let (known_b, len_b) = short_parts b hb in
    bytes
    ∙ ap (λ v. sign (Nat.compare v (of_digits 0 (in_base 256 (big_int_to_bytes value_b))))) read_a
    ∙ ap (λ v. sign (Nat.compare value_a v)) read_b
    ∙ sym digit_order
    ∙ compare_text-short_digits 24 a b known_a known_b len_a len_b

-- For two short ids `compareDocIds` is the comparison of their packed bytes, the first byte that
-- differs deciding.
pub compare_doc_ids-encode_short :
    (a b : Text)
    → is_valid_short a ≡ true
    → is_valid_short b ≡ true
    → compare_doc_ids a b ≡ compare_text (encode_short a) (encode_short b)
unfolding compare_doc_ids
compare_doc_ids-encode_short a b ha hb =
    rw (family_short a ha, family_short b hb) (sym (compare_text-encode_short a b ha hb))
