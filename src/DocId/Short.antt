-- ===== src/DocId/Short.antt =====
-- Short ids: `isValidShortDocId`, `encodeShortDocId` and `decodeShortDocId` of
-- sdk/typescript/src/doc_id.ts, with `bigIntToBytes`.
use mathlib.Core.Option
use zyncbase.Prelude.{
  ℕ, zero, suc, Bool, true, false, not, ◌&&◌, ◌||◌, Option, none, some, List, [], ◌∷◌, ltb, ◌==◌,
  if◌then◌else◌, is_some, length, get_or,
}
use zyncbase.Radix.{of_digits, in_base, to_digits}
use zyncbase.Prelude.Text.{Text, text}
use zyncbase.Prelude.Result.{Result, ok, err}

abbrev pub Bytes : Type 0
Bytes = List ℕ

-- `SHORT_ID_ALPHABET`
abbrev pub alphabet : Text
alphabet = text "-0123456789_abcdefghijklmnopqrstuvwxyz"

-- The index of a character, counted from `i`.
unfoldable pub index_from : ℕ → ℕ → Text → Option ℕ
index_from i c [] = none
index_from i c (d ∷ s) = if d == c then some i else index_from (suc i) c s

-- `shortCharToDigit.get(char)`: the index plus one.
unfoldable pub char_digit : ℕ → Option ℕ
unfolding index_from
char_digit c = index_from 1 c alphabet

abbrev pub known_chars : Text → Bool
known_chars [] = true
known_chars (c ∷ s) = is_some (char_digit c) && known_chars s

abbrev pub short_id_max_length : ℕ
short_id_max_length = 24

-- `isValidShortDocId`; a character outside the alphabet is refused whether the loop reads code points
-- or code units.
unfoldable pub is_valid_short : Text → Bool
unfolding char_digit
is_valid_short id =
    if length id == 0 || ltb short_id_max_length (length id) then false else known_chars id

-- `shortCharToDigit.get(id[i]) ?? 0`
abbrev pub digit_or_zero : ℕ → ℕ
digit_or_zero c = elim (char_digit c) [ none ↦ 0 | some d ↦ d ]

-- The digits that the loop of `encodeShortDocId` reads: `n` places, 0 behind the end of the id.
unfoldable pub short_digits : ℕ → Text → List ℕ
unfolding char_digit
short_digits zero s = []
short_digits (suc n) [] = 0 ∷ short_digits n []
short_digits (suc n) (c ∷ s) = digit_or_zero c ∷ short_digits n s

-- `bigIntToBytes`
unfoldable pub big_int_to_bytes : ℕ → Bytes
unfolding to_digits
big_int_to_bytes value = (to_digits 256 16 value []).1

-- `encodeShortDocId`
unfoldable pub encode_short : Text → Bytes
unfolding short_digits of_digits big_int_to_bytes
encode_short id = big_int_to_bytes (of_digits 0 (in_base 39 (short_digits 24 id)))

-- The last loop of `decodeShortDocId`; `none` is its throw.
unfoldable pub spell : Bool → List ℕ → Option Text
spell seen_end [] = some []
spell seen_end (zero ∷ ds) = spell true ds
spell seen_end (suc d ∷ ds) =
    if seen_end then none else Option.map (λ s. get_or alphabet d 0 ∷ s) (spell false ds)

-- `decodeShortDocId`, with the messages of its two errors.
unfoldable pub decode_short : ℕ → Result Text Text
unfolding to_digits spell
decode_short value =
    let (rest, ds) = to_digits 39 24 value [] in
    if not (rest == 0) || get_or ds 0 0 == 0
    then err (text "Invalid packed short document ID")
    else elim (spell false ds) [
      | none ↦ err (text "Invalid non-canonical short document ID")
      | some id ↦ ok id
    ]
