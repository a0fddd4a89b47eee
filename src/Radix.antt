-- ===== src/Radix.antt =====
-- Positional numbers, big-endian, as the packing code of sdk/typescript/src/doc_id.ts builds and takes
-- apart its big integers: Horner sums, also over digits of different radices, and division by a base.
pub mod Bounds
use Prim.Native.Nat.add
use native.Mathlib.Nat.{div-add-mod', mul-le-mul_right}
use zyncbase.Prelude.{
  ℕ, zero, suc, ◌+◌, ◌*◌, ◌/◌, ◌%◌, ◌<◌, ◌≡◌, refl, ◌∙◌, List, [], ◌∷◌, ◌++◌, arith, length, sym,
  ap, ◌⊎◌, inl, inr,
}
use Prim.Native.Nat.{compare, Ordering, lt, gt, eq}
use mathlib.Core.Path.{ap₂}

-- A digit with its radix: `value = value * radix + digit`, or `(value << k) | digit` for radix 2 ^ k
-- and a digit of k bits.
abbrev pub Digit : Type 0
Digit = ℕ × ℕ

unfoldable pub of_digits : ℕ → List Digit → ℕ
of_digits value [] = value
of_digits value ((radix, d) ∷ ds) = of_digits (value * radix + d) ds

abbrev pub in_base : ℕ → List ℕ → List Digit
in_base radix [] = []
in_base radix (d ∷ ds) = (radix, d) ∷ in_base radix ds

-- `for (i = n - 1; i >= 0; i--) { digits[i] = rest % base; rest /= base; }`: what remains, and the
-- digits, in front of those found before.
unfoldable pub to_digits : (base n rest : ℕ) → List ℕ → ℕ × List ℕ
to_digits base zero rest found = (rest, found)
to_digits base (suc n) rest found = to_digits base n (rest / base) ((rest % base) ∷ found)

abbrev pub AllBelow : ℕ → List ℕ → Type 0
AllBelow radix [] = Unit {0}
AllBelow radix (d ∷ ds) = (d < radix) × AllBelow radix ds

abbrev pub AllProper : List Digit → Type 0
AllProper [] = Unit {0}
AllProper ((radix, d) ∷ ds) = (d < radix) × AllProper ds

pub in_base-AllProper : (radix : ℕ) (ds : List ℕ) → AllBelow radix ds → AllProper (in_base radix ds)
in_base-AllProper radix [] h = tt
in_base-AllProper radix (d ∷ ds) (p, h) = (p, in_base-AllProper radix ds h)

div_step : (v b d : ℕ) → d < b → (v * b + d) / b ≡ v
div_step v b d h = grind arith

mod_step : (v b d : ℕ) → d < b → (v * b + d) % b ≡ d
mod_step v b d h = grind arith

suc-add_swap : (n m : ℕ) → suc n + m ≡ n + suc m
suc-add_swap n m = omega arith

-- Taking a number apart finds the digits from which it was built.
pub to_digits-of_digits :
    (base m v : ℕ) (ds found : List ℕ)
    → AllBelow base ds
    → to_digits base (length ds + m) (of_digits v (in_base base ds)) found
      ≡ to_digits base m v (ds ++ found)
unfolding of_digits to_digits
to_digits-of_digits base m v [] found h = ap (λ k. to_digits base k v found) (add.zero m)
to_digits-of_digits base m v (d ∷ ds) found (p, h) =
    ap (λ k. to_digits base k (of_digits (v * base + d) (in_base base ds)) found)
      (suc-add_swap (length ds) m)
    ∙ to_digits-of_digits base (suc m) (v * base + d) ds found h
    ∙ ap₂ (λ q r. to_digits base m q (r ∷ ds ++ found)) (div_step v base d p) (mod_step v base d p)

-- Building the number from its digits, over what remained, gives it back.
pub of_digits-to_digits :
    (base n v : ℕ) (found : List ℕ)
    → of_digits (to_digits base n v found).0 (in_base base (to_digits base n v found).1)
      ≡ of_digits v (in_base base found)
unfolding of_digits to_digits
of_digits-to_digits base zero v found = refl
of_digits-to_digits base (suc n) v found =
    of_digits-to_digits base n (v / base) ((v % base) ∷ found)
    ∙ ap (λ k. of_digits k (in_base base found)) (div-add-mod' v base)

-- `a < b ? -1 : a > b ? 1 : 0` on sequences: the first difference decides, or else the length.
unfoldable pub lex : List ℕ → List ℕ → Ordering
lex [] [] = eq
lex [] (b ∷ bs) = lt
lex (a ∷ s) [] = gt
lex (a ∷ s) (b ∷ t) = elim (compare a b) [ lt ↦ lt | gt ↦ gt | eq ↦ lex s t ]

-- The same radices, place by place.
abbrev pub SameRadices : List Digit → List Digit → Type 0
SameRadices [] [] = Unit {0}
SameRadices ((r, d) ∷ ds) ((s, e) ∷ es) = (r ≡ s) × SameRadices ds es
SameRadices _ _ = ⊥

step_lt : (v w r d e : ℕ) → v < w → d < r → v * r + d < w * r + e
step_lt v w r d e h p = omega (arith, mul-le-mul_right r h)

pub of_digits-lt :
    (v w : ℕ) (ds es : List Digit)
    → v < w
    → AllProper ds
    → SameRadices ds es
    → of_digits v ds < of_digits w es
unfolding of_digits
of_digits-lt v w [] [] h p s = h
of_digits-lt v w [] (e ∷ es) h p s = absurd s
of_digits-lt v w (d ∷ ds) [] h p s = absurd s
of_digits-lt v w ((r, d) ∷ ds) ((r', e) ∷ es) h (p, ps) (same, s) =
    of_digits-lt (v * r + d) (w * r' + e) ds es (rw (← same) (step_lt v w r d e h p)) ps s

abbrev pub digits : List Digit → List ℕ
digits [] = []
digits ((r, d) ∷ ds) = d ∷ digits ds

SameRadices-sym : (ds es : List Digit) → SameRadices ds es → SameRadices es ds
SameRadices-sym [] [] h = tt
SameRadices-sym [] (e ∷ es) h = absurd h
SameRadices-sym (d ∷ ds) [] h = absurd h
SameRadices-sym ((r, d) ∷ ds) ((r', e) ∷ es) (p, h) = (sym p, SameRadices-sym ds es h)

compare-lt : (a b : ℕ) → a < b → compare a b ≡ lt
compare-lt a b h = ground arith

compare-gt : (a b : ℕ) → b < a → compare a b ≡ gt
compare-gt a b h = ground arith

compare-eq : (a : ℕ) → compare a a ≡ eq
compare-eq a = ground arith

order : (a b : ℕ) → (a < b) ⊎ (b < a) ⊎ (a ≡ b)
order a b = ground arith

-- Comparing two numbers is comparing their digits one by one from the front.
pub compare-of_digits :
    (v : ℕ) (ds es : List Digit)
    → AllProper ds
    → AllProper es
    → SameRadices ds es
    → compare (of_digits v ds) (of_digits v es) ≡ lex (digits ds) (digits es)
unfolding of_digits lex
compare-of_digits v [] [] p q s = ground arith
compare-of_digits v [] (e ∷ es) p q s = absurd s
compare-of_digits v (d ∷ ds) [] p q s = absurd s
compare-of_digits v ((r, d) ∷ ds) ((r', e) ∷ es) (p, ps) (q, qs) (same, s) = elim (order d e) [
  | inl less ↦
      compare-lt _ _ (of_digits-lt (v * r + d) (v * r' + e) ds es (rw (← same) (omega arith)) ps s)
      ∙ rw (compare-lt d e less, lex)
  | inr (inl more) ↦
      compare-gt _ _ (
        of_digits-lt (v * r' + e) (v * r + d) es ds (rw (← same) (omega arith)) qs
          (SameRadices-sym ds es s))
      ∙ rw (compare-gt d e more, lex)
  | inr (inr equal) ↦
      rw (← equal, ← same, compare-eq d, lex) (compare-of_digits (v * r + d) ds es ps qs s)
]
