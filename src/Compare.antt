-- ===== src/Compare.antt =====
-- The order of records in the collections of a client: `compareDocIds` of
-- sdk/typescript/src/doc_id.ts, the comparators at the end of store.ts with
-- `buildCollectionComparator`, and `createCreatedAtComparator` of subscriptions.ts. A comparator
-- gives a negative number, zero or a positive number.
pub mod Utf8
pub mod Antisymmetry
pub mod Collection
pub mod Packed
pub mod PackedUuid
pub mod PackedOrder
use zyncbase.DocId.{family}
use zyncbase.Json.{Value, null, bool, num, str, get_prop}
use zyncbase.Path.{get_deep, child_of}
use zyncbase.Prelude.Int.{ℤ, pos, negsuc, ◌-ℤ◌, pos_part, neg_part, sub_ℕ, ltb_ℤ}
use zyncbase.Prelude.{
  ℕ, zero, ◌+◌, ◌-◌, ◌*◌, ◌/◌, ◌%◌, Bool, true, false, ◌&&◌, Option, none, some, List, [], ◌∷◌, ltb,
  leb, ◌==◌, if◌then◌else◌,
}
use zyncbase.Prelude.Text.{Text, text}

-- `-result`
abbrev pub negate : ℤ → ℤ
negate z = sub_ℕ (neg_part z) (pos_part z)

-- `a < b ? -1 : a > b ? 1 : 0` on strings, which compare by their code units.
unfoldable pub compare_text : Text → Text → ℤ
compare_text [] [] = pos 0
compare_text [] (b ∷ t) = negsuc 0
compare_text (a ∷ s) [] = pos 1
compare_text (a ∷ s) (b ∷ t) =
    let rest = compare_text s t in if ltb a b then negsuc 0 else if ltb b a then pos 1 else rest

-- `compareDocIds`
unfoldable pub compare_doc_ids : Text → Text → ℤ
unfolding family compare_text ◌-ℤ◌
compare_doc_ids a b =
    if family a == family b then compare_text a b else pos (family a) -ℤ pos (family b)

-- `TextEncoder.encode`: a lone surrogate becomes U+FFFD.
abbrev pub is_high : ℕ → Bool
is_high c = leb 55296 c && ltb c 56320

abbrev pub is_low : ℕ → Bool
is_low c = leb 56320 c && ltb c 57344

abbrev pub encode_unit : ℕ → List ℕ → List ℕ
encode_unit c rest =
    if ltb c 128
    then c ∷ rest
    else if ltb c 2048
    then (192 + c / 64) ∷ (128 + c % 64) ∷ rest
    else if leb 55296 c && ltb c 57344
    then 239 ∷ 191 ∷ 189 ∷ rest
    else (224 + c / 4096) ∷ (128 + c / 64 % 64) ∷ (128 + c % 64) ∷ rest

abbrev pub encode_pair : ℕ → List ℕ → List ℕ
encode_pair p rest =
    (240 + p / 262144) ∷ (128 + p / 4096 % 64) ∷ (128 + p / 64 % 64) ∷ (128 + p % 64) ∷ rest

unfoldable pub encode_utf8 : Text → List ℕ
encode_utf8 [] = []
encode_utf8 (c ∷ []) = encode_unit c []
encode_utf8 (c ∷ d ∷ s) =
    let behind_pair = encode_utf8 s in
    let behind_unit = encode_utf8 (d ∷ s) in
    if is_high c && is_low d
    then encode_pair (65536 + (c - 55296) * 1024 + (d - 56320)) behind_pair
    else encode_unit c behind_unit

-- `compareUtf8Bytes`: the first byte that differs, or the lengths.
unfoldable pub compare_utf8_bytes : Text → Text → ℤ
unfolding encode_utf8 compare_text
compare_utf8_bytes a b = compare_text (encode_utf8 a) (encode_utf8 b)

-- `isUtf8LexicalFastPath`
unfoldable pub is_utf8_lexical_fast_path : Text → Bool
is_utf8_lexical_fast_path [] = true
is_utf8_lexical_fast_path (c ∷ s) =
    let rest = is_utf8_lexical_fast_path s in if leb 2048 c then false else rest

-- `compareUtf8`
unfoldable pub compare_utf8 : Text → Text → ℤ
unfolding compare_utf8_bytes is_utf8_lexical_fast_path compare_text
compare_utf8 a b =
    if is_utf8_lexical_fast_path a && is_utf8_lexical_fast_path b
    then compare_text a b
    else compare_utf8_bytes a b

-- `compareBooleans`
abbrev pub compare_booleans : Bool → Bool → ℤ
compare_booleans true true = pos 0
compare_booleans true false = pos 1
compare_booleans false true = negsuc 0
compare_booleans false false = pos 0

-- `compareAsc` on numbers.
abbrev pub compare_asc : ℤ → ℤ → ℤ
compare_asc a b = if ltb_ℤ a b then negsuc 0 else if ltb_ℤ b a then pos 1 else pos 0

-- `compareNonNullValues`
unfoldable pub compare_non_null_values : Value → Value → ℤ
unfolding compare_utf8
compare_non_null_values (num a) (num b) = compare_asc a b
compare_non_null_values (bool a) (bool b) = compare_booleans a b
compare_non_null_values (str a) (str b) = compare_utf8 a b
compare_non_null_values _ _ = pos 0

pub record SortEntry : Type 0 where
  pub parts : List Text
  pub desc : Bool
  pub doc_id : Bool

-- The choice of the order in `compareSortEntry`.
unfoldable pub compare_values : Bool → Value → Value → ℤ
unfolding compare_non_null_values compare_doc_ids
compare_values true (str a) (str b) = compare_doc_ids a b
compare_values doc_id a b = compare_non_null_values a b

-- `v == null`
abbrev pub present : Option Value → Option Value
present none = none
present (some null) = none
present (some v) = some v

unfoldable pub compare_present : SortEntry → Option Value → Option Value → ℤ
unfolding compare_values
compare_present e none none = pos 0
compare_present e none (some b) = pos 1
compare_present e (some a) none = negsuc 0
compare_present e (some a) (some b) =
    let result = compare_values e.doc_id a b in if e.desc then negate result else result

-- `compareSortEntry`
unfoldable pub compare_sort_entry : SortEntry → Value → Value → ℤ
unfolding compare_present get_deep
compare_sort_entry e a b =
    compare_present e (present (get_deep a e.parts)) (present (get_deep b e.parts))

abbrev pub first_nonzero : ℤ → ℤ → ℤ
first_nonzero (pos zero) rest = rest
first_nonzero z rest = z

-- `compareRecords`
unfoldable pub compare_records : List SortEntry → Value → Value → ℤ
unfolding compare_sort_entry
compare_records [] a b = pos 0
compare_records (e ∷ es) a b = first_nonzero (compare_sort_entry e a b) (compare_records es a b)

abbrev pub compare_numbers : Option Value → Option Value → ℤ
compare_numbers (some (num a)) (some (num b)) = compare_asc a b
compare_numbers _ _ = pos 0

-- `createCreatedAtComparator`
unfoldable pub compare_created_at : Value → Value → ℤ
unfolding get_prop
compare_created_at a b =
    compare_numbers (child_of (text "created_at") a) (child_of (text "created_at") b)
