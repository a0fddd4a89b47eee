-- ===== src/Radix/Bounds.antt =====
-- How many digits there are, how large they are, and how large the number is.
use zyncbase.Prelude.{
  ℕ, zero, suc, ◌+◌, ◌*◌, ◌/◌, ◌%◌, ◌^◌, ◌<◌, ◌≡◌, refl, sym, ◌∙◌, List, [], ◌∷◌, arith, length,
  replicate, length-replicate,
}
use mathlib.Core.Path.{subst}
use native.Mathlib.Nat.{pow-suc, pow-zero, mod-lt}
use zyncbase.Radix.{
  of_digits, in_base, to_digits, AllBelow, SameRadices, of_digits-lt, in_base-AllProper,
}

pub SameRadices-in_base :
    (radix : ℕ) (ds es : List ℕ)
    → length ds ≡ length es
    → SameRadices (in_base radix ds) (in_base radix es)
SameRadices-in_base radix [] [] h = tt
SameRadices-in_base radix [] (e ∷ es) h = absurd (omega arith)
SameRadices-in_base radix (d ∷ ds) [] h = absurd (omega arith)
SameRadices-in_base radix (d ∷ ds) (e ∷ es) h =
    (refl, SameRadices-in_base radix ds es (omega arith))

pub length-to_digits :
    (base n v : ℕ) (found : List ℕ) → length (to_digits base n v found).1 ≡ n + length found
unfolding to_digits
length-to_digits base zero v found = omega arith
length-to_digits base (suc n) v found =
    omega (arith, length-to_digits base n (v / base) ((v % base) ∷ found))

pub to_digits-AllBelow :
    (base n v : ℕ) (found : List ℕ)
    → 0 < base
    → AllBelow base found
    → AllBelow base (to_digits base n v found).1
unfolding to_digits
to_digits-AllBelow base zero v found pos h = h
to_digits-AllBelow base (suc n) v found pos h =
    to_digits-AllBelow base n (v / base) ((v % base) ∷ found) pos (mod-lt v pos, h)

div_bound : (v b k : ℕ) → v < k * b → v / b < k
div_bound v b k h = grind arith

-- With enough places nothing remains.
pub to_digits-rest :
    (base n v : ℕ) (found : List ℕ) → v < base ^ n → (to_digits base n v found).0 ≡ 0
unfolding to_digits
to_digits-rest base zero v found h = (let p : v < base ^ 0 = h in omega (arith, pow-zero base))
to_digits-rest base (suc n) v found h =
    to_digits-rest base n (v / base) ((v % base) ∷ found)
      (div_bound v base (base ^ n) (subst (λ t. v < t) (pow-suc base n) h))

-- A number of `n` digits is less than the one followed by `n` zeros.
pub of_digits-lt_one :
    (radix n : ℕ) (ds : List ℕ)
    → length ds ≡ n
    → AllBelow radix ds
    → of_digits 0 (in_base radix ds) < of_digits 1 (in_base radix (replicate n 0))
of_digits-lt_one radix n ds len h =
    of_digits-lt 0 1 (in_base radix ds) (in_base radix (replicate n 0)) (omega arith)
      (in_base-AllProper radix ds h)
      (SameRadices-in_base radix ds (replicate n 0) (len ∙ sym (length-replicate n 0)))
