-- ===== src/StoreWire/SortLaws.antt =====
-- Which orders `encodeOrderBy` accepts, and how the client's own comparator reads them.
use zyncbase.StoreWire.Sort.{
  WireOrder, encode_field, includes, direction, encode_single, encode_clause_fields,
  encode_sort_clause, encode_clauses, is_unique_field, misplaced, check_unique, item_count,
  has_valid_count, encode_order_by,
}
use zyncbase.Prelude.{
  ◌≡◌, refl, ◌≢◌, ◌↔◌, inl, inr, ℕ, suc, ◌≤◌, Bool, true, false, none, some, List, [], ◌∷◌, length,
  arith, Bool-cases, Option-cases, ap, ◌∙◌,
}
use zyncbase.Prelude.Text.{Text, text, text_eq, text_eq_iff}
use zyncbase.Prelude.Result.{ok, >>=-eq-ok}
use zyncbase.Prelude.Int.{pos}
use zyncbase.Json.{Value, null, bool, num, str, bytes, arr, obj, Items, nil, cons, end, field}

abbrev pub direction_text : Bool → Text
direction_text true = text "desc"
direction_text false = text "asc"

-- `{ [name]: "asc" }` or `{ [name]: "desc" }`, with the dots of the name turned into "__".
abbrev pub IsClause : Value → WireOrder → Type 0
IsClause v e =
    (name : Text) × (v ≡ obj (field name (str (direction_text e.desc)) end))
    × (e.key ≡ encode_field name)

abbrev pub AreClauses : Items → List WireOrder → Type 0
AreClauses nil [] = Unit {0}
AreClauses (cons v vs) (e ∷ es) = IsClause v e × AreClauses vs es
AreClauses _ _ = ⊥

abbrev pub IsOther : Text → List WireOrder → Type 0
IsOther k [] = Unit {0}
IsOther k (e ∷ es) = (e.key ≢ k) × IsOther k es

-- No two clauses have the same field.
abbrev pub HaveDistinctFields : List WireOrder → Type 0
HaveDistinctFields [] = Unit {0}
HaveDistinctFields (e ∷ es) = IsOther e.key es × HaveDistinctFields es

-- Only the last clause may be of `id` or `created_at`.
abbrev pub EndsUnique : List WireOrder → Type 0
EndsUnique [] = Unit {0}
EndsUnique (e ∷ []) = Unit {0}
EndsUnique (e ∷ e' ∷ es) = (e.key ≢ text "id") × (e.key ≢ text "created_at") × EndsUnique (e' ∷ es)

abbrev pub IsOrder : Value → List WireOrder → Type 0
IsOrder v es =
    (clauses : Items) × (v ≡ arr clauses)
    × AreClauses clauses es
    × (1 ≤ length es)
    × (length es ≤ 8)
    × HaveDistinctFields es
    × EndsUnique es

found_asc :
    (s : Text) (desc : Bool)
    → text_eq s (text "asc") ≡ true
    → direction (str s) ≡ some desc
    → str s ≡ str (direction_text desc)
unfolding direction
found_asc s true asc h = (let g = rw asc at h in cc)
found_asc s false asc h = rw ((text_eq_iff s (text "asc")).0 asc) refl

found_desc :
    (s : Text) (desc : Bool)
    → text_eq s (text "asc") ≡ false
    → direction (str s) ≡ some desc
    → str s ≡ str (direction_text desc)
unfolding direction
found_desc s desc other h = elim (Bool-cases (text_eq s (text "desc"))) [
  | inl known ↦ ground (arith, (text_eq_iff s (text "desc")).0 known)
  | inr unknown ↦ ground arith
]

direction-text : (v : Value) (desc : Bool) → direction v ≡ some desc → v ≡ str (direction_text desc)
unfolding direction
direction-text (str s) desc h = elim (Bool-cases (text_eq s (text "asc"))) [
  | inl asc ↦ found_asc s desc asc h
  | inr other ↦ found_desc s desc other h
]
direction-text null desc h = cc
direction-text (bool b) desc h = cc
direction-text (num n) desc h = cc
direction-text (bytes bs) desc h = cc
direction-text (arr vs) desc h = cc
direction-text (obj fs) desc h = cc

direction_of_text : (desc : Bool) → direction (str (direction_text desc)) ≡ some desc
unfolding direction text_eq
direction_of_text true = refl
direction_of_text false = refl

single :
    (i : ℕ) (seen : List Text) (name : Text) (dir : Value) (e : WireOrder)
    → encode_single i seen name dir ≡ ok e
    → (dir ≡ str (direction_text e.desc))
      × (e.key ≡ encode_field name)
      × (includes e.key seen ≡ false)
unfolding encode_single
single i seen name dir e h = elim (Option-cases (direction dir)) [
  | inl other ↦ (let g = rw (other, encode_single) at h in cc)
  | inr (desc, found) ↦ elim (Bool-cases (includes (encode_field name) seen)) [
    | inl known ↦ (let g = rw (found, encode_single, known) at h in cc)
    | inr fresh ↦
        let g = rw (found, encode_single, fresh) at h in
        let same : record { key = encode_field name; desc = desc } ≡ e = cc in
        rw (← same) (direction-text dir desc found, refl, fresh)
  ]
]

single_of_IsClause :
    (i : ℕ) (seen : List Text) (name : Text) (e : WireOrder)
    → e.key ≡ encode_field name
    → includes e.key seen ≡ false
    → encode_single i seen name (str (direction_text e.desc)) ≡ ok e
unfolding encode_single
single_of_IsClause i seen name e same fresh =
    rw (encode_single, direction_of_text e.desc, ← same, fresh) refl

encode_sort_clause-IsClause :
    (i : ℕ) (seen : List Text) (v : Value) (e : WireOrder)
    → encode_sort_clause i seen v ≡ ok e
    → IsClause v e × (includes e.key seen ≡ false)
unfolding encode_sort_clause encode_clause_fields
encode_sort_clause-IsClause i seen (obj (field name dir end)) e h =
    let (d, k, fresh) = single i seen name dir e h in ((name, rw d refl, k), fresh)
encode_sort_clause-IsClause i seen (obj end) e h = cc
encode_sort_clause-IsClause i seen (obj (field name dir (field name' dir' fs))) e h = cc
encode_sort_clause-IsClause i seen (bytes []) e h = cc
encode_sort_clause-IsClause i seen (bytes (b ∷ [])) e h =
    (let (d, k, fresh) = single i seen (b'0' ∷ []) (num (pos b)) e h in cc)
encode_sort_clause-IsClause i seen (bytes (b ∷ b' ∷ bs)) e h = cc
encode_sort_clause-IsClause i seen null e h = cc
encode_sort_clause-IsClause i seen (bool b) e h = cc
encode_sort_clause-IsClause i seen (num n) e h = cc
encode_sort_clause-IsClause i seen (str s) e h = cc
encode_sort_clause-IsClause i seen (arr vs) e h = cc

of_clause :
    (i : ℕ) (seen : List Text) (v : Value) (e : WireOrder)
    → IsClause v e
    → includes e.key seen ≡ false
    → encode_sort_clause i seen v ≡ ok e
unfolding encode_sort_clause encode_clause_fields
of_clause i seen v e (name, d, k) fresh = rw d (single_of_IsClause i seen name e k fresh)

-- No clause has a field of the list.
abbrev pub IsOutside : List Text → List WireOrder → Type 0
IsOutside seen [] = Unit {0}
IsOutside seen (e ∷ es) = (includes e.key seen ≡ false) × IsOutside seen es

IsOutside-cons :
    (k : Text) (seen : List Text) (es : List WireOrder)
    → IsOther k es
    → IsOutside seen es
    → IsOutside (k ∷ seen) es
unfolding includes
IsOutside-cons k seen [] o h = tt
IsOutside-cons k seen (e ∷ es) (ne, o) (f, h) =
    (ground (arith, text_eq_iff e.key k), IsOutside-cons k seen es o h)

IsOutside-uncons :
    (k : Text) (seen : List Text) (es : List WireOrder)
    → IsOutside (k ∷ seen) es
    → IsOther k es × IsOutside seen es
unfolding includes
IsOutside-uncons k seen [] h = (tt, tt)
IsOutside-uncons k seen (e ∷ es) (f, h) =
    let (o, rest) = IsOutside-uncons k seen es h in
    ((λ same. ground (arith, text_eq_iff e.key k), o), (ground arith, rest))

IsOutside-nil : (es : List WireOrder) → IsOutside [] es
unfolding includes
IsOutside-nil [] = tt
IsOutside-nil (e ∷ es) = (refl, IsOutside-nil es)

clauses_of :
    (i : ℕ) (seen : List Text) (vs : Items) (es : List WireOrder)
    → encode_clauses i seen vs ≡ ok es
    → AreClauses vs es × IsOutside seen es × HaveDistinctFields es
unfolding encode_clauses
clauses_of i seen nil [] h = (tt, tt, tt)
clauses_of i seen nil (e ∷ es) h = cc
clauses_of i seen (cons v vs) es h =
    let (e, first, more) = >>=-eq-ok (encode_sort_clause i seen v) _ es h in
    let (rest, others, whole) = >>=-eq-ok (encode_clauses (suc i) (e.key ∷ seen) vs) _ es more in
    let same : e ∷ rest ≡ es = cc in
    let (c, fresh) = encode_sort_clause-IsClause i seen v e first in
    let (cs, outside, distinct) = clauses_of (suc i) (e.key ∷ seen) vs rest others in
    let (other, out) = IsOutside-uncons e.key seen rest outside in
    rw (← same) ((c, cs), (fresh, out), (other, distinct))

of_clauses :
    (i : ℕ) (seen : List Text) (vs : Items) (es : List WireOrder)
    → AreClauses vs es
    → IsOutside seen es
    → HaveDistinctFields es
    → encode_clauses i seen vs ≡ ok es
unfolding encode_clauses
of_clauses i seen nil [] c o d = refl
of_clauses i seen nil (e ∷ es) c o d = absurd c
of_clauses i seen (cons v vs) [] c o d = absurd c
of_clauses i seen (cons v vs) (e ∷ es) (c, cs) (fresh, out) (other, d) =
    rw
      (
        of_clause i seen v e c fresh,
        of_clauses (suc i) (e.key ∷ seen) vs es cs (IsOutside-cons e.key seen es other out) d,
      )
      refl

item_count-clauses :
    (vs : Items) (es : List WireOrder) → AreClauses vs es → item_count vs ≡ length es
unfolding item_count
item_count-clauses nil [] c = refl
item_count-clauses nil (e ∷ es) c = absurd c
item_count-clauses (cons v vs) [] c = absurd c
item_count-clauses (cons v vs) (e ∷ es) (c, cs) = omega (arith, item_count-clauses vs es cs)

misplaced-none : (es : List WireOrder) → (misplaced es ≡ none) ↔ EndsUnique es
unfolding misplaced is_unique_field
misplaced-none [] = (λ h. tt, λ h. refl)
misplaced-none (e ∷ []) = (λ h. tt, λ h. refl)
misplaced-none (e ∷ e' ∷ es) = ground (
  arith,
  misplaced-none (e' ∷ es),
  text_eq_iff e.key (text "id"),
  text_eq_iff e.key (text "created_at"),
)

check_unique-ok :
    (es es' : List WireOrder) → check_unique es ≡ ok es' → (misplaced es ≡ none) × (es ≡ es')
unfolding check_unique
check_unique-ok es es' h = elim (Option-cases (misplaced es)) [
  | inl none_ ↦ (none_, (let g = rw (none_, check_unique) at h in cc))
  | inr (name, found) ↦ (let g = rw (found, check_unique) at h in cc)
]

check_unique_of_none : (es : List WireOrder) → misplaced es ≡ none → check_unique es ≡ ok es
unfolding check_unique
check_unique_of_none es h = rw (h, check_unique) refl

encode_order_by-IsOrder :
    (v : Value) (es : List WireOrder) → encode_order_by v ≡ ok es → IsOrder v es
unfolding encode_order_by has_valid_count
encode_order_by-IsOrder (arr vs) es h = elim (Bool-cases (has_valid_count vs)) [
  | inl good ↦
      let g = rw good at h in
      let (found, e, unique) = >>=-eq-ok (encode_clauses 0 [] vs) _ es g in
      let (last, same) = check_unique-ok found es unique in
      let (cs, out, distinct) = clauses_of 0 [] vs es (e ∙ ap ok same) in
      (
        vs,
        refl,
        cs,
        ground (arith, item_count-clauses vs es cs),
        ground (arith, item_count-clauses vs es cs),
        distinct,
        (misplaced-none es).0 (rw (← same) last),
      )
  | inr bad ↦ (let g = rw bad at h in cc)
]
encode_order_by-IsOrder null es h = cc
encode_order_by-IsOrder (bool b) es h = cc
encode_order_by-IsOrder (num n) es h = cc
encode_order_by-IsOrder (str s) es h = cc
encode_order_by-IsOrder (bytes bs) es h = cc
encode_order_by-IsOrder (obj fs) es h = cc

of_order : (v : Value) (es : List WireOrder) → IsOrder v es → encode_order_by v ≡ ok es
unfolding encode_order_by has_valid_count check_unique
of_order v es (vs, e, cs, low, high, distinct, last) =
    let good : has_valid_count vs ≡ true = ground (arith, item_count-clauses vs es cs) in
    rw (e, good, of_clauses 0 [] vs es cs (IsOutside-nil es) distinct)
      (check_unique_of_none es ((misplaced-none es).1 last))

-- `encodeOrderBy` accepts exactly the arrays of one to eight objects that have one property each,
-- "asc" or "desc", with distinct fields, only the last of which may be `id` or `created_at`; it
-- returns the fields, the dots turned into "__", and the directions, in order.
pub encode_order_by_iff :
    (v : Value) (es : List WireOrder) → (encode_order_by v ≡ ok es) ↔ IsOrder v es
encode_order_by_iff v es = (encode_order_by-IsOrder v es, of_order v es)
