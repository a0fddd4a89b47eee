-- ===== src/DocId/ShortLaws.antt =====
-- The digits of a short id, and their spelling.
use mathlib.Core.Option
use zyncbase.Prelude.{
  ℕ, zero, suc, ◌+◌, ◌-◌, ◌≤◌, ◌<◌, ◌≡◌, refl, ap, inl, inr, Bool, true, false, some, List, [], ◌∷◌,
  arith, ◌==◌, Bool-cases, Option-cases, length, get_or, ◌∙◌, none,
}
use zyncbase.Radix.{AllBelow}
use zyncbase.DocId.Short.{
  alphabet, index_from, char_digit, known_chars, digit_or_zero, short_digits, spell,
}
use zyncbase.Prelude.Text.{Text}

index_from-bounds :
    (i c j : ℕ) (s : Text)
    → index_from i c s ≡ some j
    → (i ≤ j) × (j < i + length s) × (get_or s (j - i) 0 ≡ c)
unfolding index_from
index_from-bounds i c j [] h = cc
index_from-bounds i c j (d ∷ s) h = elim (Bool-cases (d == c)) [
  | inl same ↦
      let e : i ≡ j = ground arith in
      let z : j - i ≡ 0 = omega arith in (omega arith, omega arith, rw z (ground arith))
  | inr other ↦
      let (lo, hi, at_place) = index_from-bounds (suc i) c j s (ground arith) in
      let z : j - i ≡ suc (j - suc i) = omega arith in (omega arith, omega arith, rw z at_place)
]

-- A character of the alphabet has a digit from 1 to 38, and is the one at that place.
pub char_digit-bounds :
    (c d : ℕ) → char_digit c ≡ some d → (0 < d) × (d < 39) × (get_or alphabet (d - 1) 0 ≡ c)
unfolding char_digit
char_digit-bounds c d h = index_from-bounds 1 c d alphabet h

pub length-short_digits : (n : ℕ) (s : Text) → length (short_digits n s) ≡ n
unfolding short_digits
length-short_digits zero s = refl
length-short_digits (suc n) [] = ap suc (length-short_digits n [])
length-short_digits (suc n) (c ∷ s) = ap suc (length-short_digits n s)

pub digit_or_zero_known : (c d : ℕ) → char_digit c ≡ some d → digit_or_zero c ≡ d
digit_or_zero_known c d known = rw (known, digit_or_zero)

digit_or_zero_unknown : (c : ℕ) → char_digit c ≡ none → digit_or_zero c ≡ 0
digit_or_zero_unknown c unknown = rw (unknown, digit_or_zero)

digit_or_zero-lt : (c : ℕ) → digit_or_zero c < 39
digit_or_zero-lt c = elim (Option-cases (char_digit c)) [
  | inl unknown ↦ omega (arith, digit_or_zero_unknown c unknown)
  | inr (d, known) ↦ omega (arith, digit_or_zero_known c d known, (char_digit-bounds c d known).1)
]

pub short_digits-AllBelow : (n : ℕ) (s : Text) → AllBelow 39 (short_digits n s)
unfolding short_digits
short_digits-AllBelow zero s = tt
short_digits-AllBelow (suc n) [] = (omega arith, short_digits-AllBelow n [])
short_digits-AllBelow (suc n) (c ∷ s) = (digit_or_zero-lt c, short_digits-AllBelow n s)

spell-padding : (n : ℕ) (b : Bool) → spell b (short_digits n []) ≡ some []
unfolding spell short_digits
spell-padding zero b = refl
spell-padding (suc n) b = spell-padding n true

spell-digit :
    (c d : ℕ) (ds : List ℕ)
    → char_digit c ≡ some d
    → spell false (d ∷ ds) ≡ Option.map (λ s. c ∷ s) (spell false ds)
unfolding spell
spell-digit c zero ds h = absurd (omega (arith, char_digit-bounds c 0 h))
spell-digit c (suc d) ds h =
    let (lo, hi, at_place) = char_digit-bounds c (suc d) h in
    let z : suc d - 1 ≡ d = omega arith in
    ap (λ k. Option.map (λ s. k ∷ s) (spell false ds)) (rw z at at_place)

-- Spelling the digits of an id of known characters gives it back.
pub spell-short_digits :
    (n : ℕ) (s : Text)
    → known_chars s ≡ true
    → length s ≤ n
    → spell false (short_digits n s) ≡ some s
unfolding short_digits
spell-short_digits n [] h le = spell-padding n false
spell-short_digits zero (c ∷ s) h le = absurd (omega arith)
spell-short_digits (suc n) (c ∷ s) h le = elim (Option-cases (char_digit c)) [
  | inl unknown ↦ cc (rw unknown at h)
  | inr (d, known) ↦ rw (digit_or_zero_known c d known) (
      spell-digit c d (short_digits n s) known
      ∙ ap (Option.map (λ t. c ∷ t)) (spell-short_digits n s (ground arith) (omega arith)))
]
