-- ===== src/Compare/Antisymmetry.antt =====
-- The comparators of store.ts and doc_id.ts with their two records swapped.
use zyncbase.Compare.{
  negate, compare_text, compare_doc_ids, compare_utf8_bytes, compare_utf8, compare_non_null_values,
  SortEntry, compare_values, present, compare_present, compare_sort_entry, first_nonzero,
  compare_records, encode_utf8,
}
use zyncbase.DocId.{family}
use zyncbase.Json.{Value, null, bool, num, str, bytes, arr, obj}
use zyncbase.Path.{get_deep}
use zyncbase.Prelude.Int.{ℤ, pos, ◌-ℤ◌}
use zyncbase.Prelude.{
  ◌≡◌, refl, Bool, true, false, Option, none, some, List, [], ◌∷◌, arith, ℕ, ◌==◌, if◌then◌else◌,
}
use zyncbase.Prelude.Text.{Text}

compare_text-negate : (a b : Text) → compare_text b a ≡ negate (compare_text a b)
unfolding compare_text
compare_text-negate [] [] = refl
compare_text-negate [] (b ∷ t) = ground arith
compare_text-negate (a ∷ s) [] = ground arith
compare_text-negate (a ∷ s) (b ∷ t) = ground (arith, compare_text-negate s t)

families_negate :
    (x y : ℕ) (s t : ℤ)
    → t ≡ negate s
    → (if y == x then t else pos y -ℤ pos x) ≡ negate (if x == y then s else pos x -ℤ pos y)
unfolding ◌-ℤ◌
families_negate x y s t h = ground arith

pub compare_doc_ids-negate : (a b : Text) → compare_doc_ids b a ≡ negate (compare_doc_ids a b)
unfolding compare_doc_ids ◌-ℤ◌
compare_doc_ids-negate a b = families_negate (family a) (family b) _ _ (compare_text-negate a b)

compare_utf8-negate : (a b : Text) → compare_utf8 b a ≡ negate (compare_utf8 a b)
unfolding compare_utf8 compare_utf8_bytes
compare_utf8-negate a b =
    ground (arith, compare_text-negate a b, compare_text-negate (encode_utf8 a) (encode_utf8 b))

compare_non_null_values-negate :
    (a b : Value) → compare_non_null_values b a ≡ negate (compare_non_null_values a b)
unfolding compare_non_null_values
compare_non_null_values-negate (num a) (num b) = ground arith
compare_non_null_values-negate (bool true) (bool true) = refl
compare_non_null_values-negate (bool true) (bool false) = refl
compare_non_null_values-negate (bool false) (bool true) = refl
compare_non_null_values-negate (bool false) (bool false) = refl
compare_non_null_values-negate (str a) (str b) = compare_utf8-negate a b
compare_non_null_values-negate (num a) b = refl
compare_non_null_values-negate (bool a) b = refl
compare_non_null_values-negate (str a) b = refl
compare_non_null_values-negate null null = refl
compare_non_null_values-negate null b = refl
compare_non_null_values-negate (bytes a) null = refl
compare_non_null_values-negate (bytes a) b = refl
compare_non_null_values-negate (arr a) null = refl
compare_non_null_values-negate (arr a) b = refl
compare_non_null_values-negate (obj a) null = refl
compare_non_null_values-negate (obj a) b = refl

compare_values-negate :
    (doc_id : Bool) (a b : Value) → compare_values doc_id b a ≡ negate (compare_values doc_id a b)
unfolding compare_values
compare_values-negate true (str a) (str b) = compare_doc_ids-negate a b
compare_values-negate true (str a) null = compare_non_null_values-negate (str a) null
compare_values-negate true (str a) b = compare_non_null_values-negate (str a) b
compare_values-negate true null null = compare_non_null_values-negate null null
compare_values-negate true null b = compare_non_null_values-negate null b
compare_values-negate true (bytes a) null = compare_non_null_values-negate (bytes a) null
compare_values-negate true (bytes a) b = compare_non_null_values-negate (bytes a) b
compare_values-negate true (arr a) null = compare_non_null_values-negate (arr a) null
compare_values-negate true (arr a) b = compare_non_null_values-negate (arr a) b
compare_values-negate true (obj a) null = compare_non_null_values-negate (obj a) null
compare_values-negate true (obj a) b = compare_non_null_values-negate (obj a) b
compare_values-negate true (num a) null = compare_non_null_values-negate (num a) null
compare_values-negate true (num a) b = compare_non_null_values-negate (num a) b
compare_values-negate true (bool a) null = compare_non_null_values-negate (bool a) null
compare_values-negate true (bool a) b = compare_non_null_values-negate (bool a) b
compare_values-negate false a b = compare_non_null_values-negate a b

compare_present-negate :
    (e : SortEntry) (a b : Option Value) → compare_present e b a ≡ negate (compare_present e a b)
unfolding compare_present
compare_present-negate e none none = refl
compare_present-negate e none (some b) = refl
compare_present-negate e (some a) none = refl
compare_present-negate e (some a) (some b) = ground (arith, compare_values-negate e.doc_id a b)

first_nonzero-negate :
    (x y r s : ℤ) → y ≡ negate x → s ≡ negate r → first_nonzero y s ≡ negate (first_nonzero x r)
first_nonzero-negate x y r s h k = ground arith

-- Swapping two records swaps the sign of the result of `compareRecords`, for any sort clauses and
-- any two values.
pub compare_records-negate :
    (es : List SortEntry) (a b : Value) → compare_records es b a ≡ negate (compare_records es a b)
unfolding compare_records compare_sort_entry
compare_records-negate [] a b = refl
compare_records-negate (e ∷ es) a b =
    first_nonzero-negate (compare_sort_entry e a b) (compare_sort_entry e b a)
      (compare_records es a b) (compare_records es b a)
      (compare_present-negate e (present (get_deep a e.parts)) (present (get_deep b e.parts)))
      (compare_records-negate es a b)
