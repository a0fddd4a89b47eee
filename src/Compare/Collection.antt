-- ===== src/Compare/Collection.antt =====
-- The comparator of a subscribed collection, `buildCollectionComparator` of store.ts, and the
-- snapshots that are sorted by it.
use mathlib.Core.List.Perm
use zyncbase.Compare.{
  negate, SortEntry, compare_records, compare_created_at, compare_numbers, compare_asc,
}
use zyncbase.Compare.Antisymmetry.{compare_records-negate}
use zyncbase.Json.{Value, null, bool, num, str, bytes, arr, obj, from_items}
use zyncbase.Path.{split_field_path, child_of}
use zyncbase.Prelude.Int.{ℤ}
use zyncbase.Prelude.Result.{Result, ok, >>=-eq-ok, ◌>>=◌}
use zyncbase.Errors.{Thrown}
use zyncbase.Schema.{SchemaDictionary}
use zyncbase.Schema.Paths.{get_table_index, get_field_index, is_doc_id_field}
use zyncbase.Subscriptions.Views.{
  MaterializedView, is_at_most_zero, insert_sorted, sort, values, snapshot_view,
}
use mathlib.Core.List.{Perm}
use zyncbase.Prelude.{
  ◌≡◌, refl, inl, inr, Bool, true, false, ◌||◌, Option, none, some, List, [], ◌∷◌, ◌++◌, arith,
  ◌==◌, if◌then◌else◌, Bool-cases, ℕ,
}
use zyncbase.Prelude.Text.{Text, text, text_eq}

-- One clause of `orderBy`: the first key of the object, and whether its direction is "desc".
pub record OrderClause : Type 0 where
  pub key : Option Text
  pub desc : Bool

-- `field.replace(/\./g, "__")`
unfoldable pub encode_dots : Text → Text
encode_dots [] = []
encode_dots (c ∷ s) = let rest = encode_dots s in if c == b'.' then b'_' ∷ b'_' ∷ rest else c ∷ rest

abbrev pub sort_entry : Bool → Text → Bool → SortEntry
sort_entry doc_id encoded desc = record {
  parts = split_field_path encoded;
  desc = desc;
  doc_id = doc_id;
}

-- The loop over the clauses; a clause without a key is left out. Whether an encoded field holds
-- document ids is asked for each clause, which throws for an unknown field.
unfoldable pub sort_entries :
    (Text → Result Thrown Bool) → List OrderClause → Result Thrown (List SortEntry)
unfolding encode_dots split_field_path
sort_entries is_doc_id [] = ok []
sort_entries is_doc_id (clause ∷ clauses) = elim clause.key [
  | none ↦ sort_entries is_doc_id clauses
  | some name ↦ (do
    doc_id ← is_doc_id (encode_dots name)
    rest ← sort_entries is_doc_id clauses
    ok (sort_entry doc_id (encode_dots name) clause.desc ∷ rest))
]

-- `schema.getFieldIndex` and `schema.isDocIdField`, for one field of a table.
unfoldable pub holds_doc_id : SchemaDictionary → ℕ → Text → Result Thrown Bool
unfolding get_field_index is_doc_id_field
holds_doc_id d table_index name = do
  field_index ← get_field_index d table_index name
  is_doc_id_field d table_index field_index

-- Whether the final clause is unique already: `created_at` or `id`.
abbrev pub is_unique : List Text → Bool
is_unique (part ∷ []) = text_eq part (text "created_at") || text_eq part (text "id")
is_unique _ = false

unfoldable pub ends_unique : List SortEntry → Bool
ends_unique [] = false
ends_unique (e ∷ []) = is_unique e.parts
ends_unique (e ∷ e' ∷ es) = ends_unique (e' ∷ es)

abbrev pub created_at_entry : SortEntry
created_at_entry = record { parts = text "created_at" ∷ []; desc = false; doc_id = false }

abbrev pub with_tie_break : List SortEntry → List SortEntry
unfolding ends_unique
with_tie_break es = if ends_unique es then es else es ++ created_at_entry ∷ []

-- `buildCollectionComparator`
unfoldable pub build_collection_comparator :
    SchemaDictionary → Text → List OrderClause → Result Thrown (Value → Value → ℤ)
unfolding get_table_index holds_doc_id sort_entries with_tie_break compare_created_at
    compare_records
build_collection_comparator d collection [] = ok compare_created_at
build_collection_comparator d collection (c ∷ cs) = do
  table_index ← get_table_index d collection
  entries ← sort_entries (holds_doc_id d table_index) (c ∷ cs)
  ok (compare_records (with_tie_break entries))

compare_asc-negate : (a b : ℤ) → compare_asc b a ≡ negate (compare_asc a b)
compare_asc-negate a b = ground arith

compare_numbers-negate : (a b : Option Value) → compare_numbers b a ≡ negate (compare_numbers a b)
compare_numbers-negate (some (num a)) (some (num b)) = compare_asc-negate a b
compare_numbers-negate (some (num a)) b = refl
compare_numbers-negate none (some (num b)) = refl
compare_numbers-negate none b = refl
compare_numbers-negate (some null) (some (num b)) = refl
compare_numbers-negate (some (bool a)) (some (num b)) = refl
compare_numbers-negate (some (str a)) (some (num b)) = refl
compare_numbers-negate (some (bytes a)) (some (num b)) = refl
compare_numbers-negate (some (arr a)) (some (num b)) = refl
compare_numbers-negate (some (obj a)) (some (num b)) = refl
compare_numbers-negate a b = refl

-- Swapping two records swaps the sign of the comparator of a collection, with any order clauses.
pub build_collection_comparator-negate :
    (d : SchemaDictionary) (collection : Text) (cs : List OrderClause) (compare : Value → Value → ℤ)
    → build_collection_comparator d collection cs ≡ ok compare
    → (a b : Value) → compare b a ≡ negate (compare a b)
unfolding build_collection_comparator compare_created_at
build_collection_comparator-negate d collection [] compare h a b =
    let same : compare_created_at ≡ compare = cc in
    rw (← same)
      (compare_numbers-negate (child_of (text "created_at") a) (child_of (text "created_at") b))
build_collection_comparator-negate d collection (c ∷ cs) compare h a b =
    let (ti, _, more) = >>=-eq-ok (get_table_index d collection) _ compare h in
    let (es, _, whole) = >>=-eq-ok (sort_entries (holds_doc_id d ti) (c ∷ cs)) _ compare more in
    let same : compare_records (with_tie_break es) ≡ compare = cc in
    rw (← same) (compare_records-negate (with_tie_break es) a b)

-- Each value is at most the next one.
abbrev pub IsOrdered : (Value → Value → ℤ) → List Value → Type 0
IsOrdered compare [] = Unit {0}
IsOrdered compare (v ∷ []) = Unit {0}
IsOrdered compare (v ∷ w ∷ ws) = (is_at_most_zero (compare v w) ≡ true) × IsOrdered compare (w ∷ ws)

tail-IsOrdered :
    (compare : Value → Value → ℤ) (w : Value) (ws : List Value)
    → IsOrdered compare (w ∷ ws)
    → IsOrdered compare ws
tail-IsOrdered compare w [] h = tt
tail-IsOrdered compare w (x ∷ ws) h = h.1

module _ (compare : Value → Value → ℤ)
    (antisymmetric : (a b : Value) → compare b a ≡ negate (compare a b)) where
  at_most_zero :
      (v w : Value) → is_at_most_zero (compare v w) ≡ false → is_at_most_zero (compare w v) ≡ true
  at_most_zero v w h = ground (arith, antisymmetric v w)

  IsOrdered-cons :
      (w v : Value) (ws : List Value)
      → is_at_most_zero (compare w v) ≡ true
      → IsOrdered compare (w ∷ ws)
      → IsOrdered compare (insert_sorted compare v ws)
      → IsOrdered compare (w ∷ insert_sorted compare v ws)
  unfolding insert_sorted
  IsOrdered-cons w v [] le h k = (le, tt)
  IsOrdered-cons w v (x ∷ ws) le h k = elim (Bool-cases (is_at_most_zero (compare v x))) [
    | inl before ↦ rw (before) (le, rw before at k)
    | inr behind ↦ rw (behind) (h.0, rw behind at k)
  ]

  insert_sorted-IsOrdered :
      (v : Value) (ws : List Value)
      → IsOrdered compare ws
      → IsOrdered compare (insert_sorted compare v ws)
  unfolding insert_sorted
  insert_sorted-IsOrdered v [] h = tt
  insert_sorted-IsOrdered v (w ∷ ws) h = elim (Bool-cases (is_at_most_zero (compare v w))) [
    | inl before ↦ rw (before) (before, h)
    | inr behind ↦ rw (behind) (
        IsOrdered-cons w v ws (at_most_zero v w behind) h
          (insert_sorted-IsOrdered v ws (tail-IsOrdered compare w ws h)))
  ]

  sort-IsOrdered : (vs : List Value) → IsOrdered compare (sort compare vs)
  unfolding sort
  sort-IsOrdered [] = tt
  sort-IsOrdered (v ∷ vs) = insert_sorted-IsOrdered v (sort compare vs) (sort-IsOrdered vs)

insert_sorted-Perm :
    (compare : Value → Value → ℤ) (v : Value) (ws : List Value)
    → Perm (v ∷ ws) (insert_sorted compare v ws)
unfolding insert_sorted
insert_sorted-Perm compare v [] = Perm.rfl
insert_sorted-Perm compare v (w ∷ ws) = elim (Bool-cases (is_at_most_zero (compare v w))) [
  | inl before ↦ rw (before) Perm.rfl
  | inr behind ↦
      rw (behind) (Perm.trans (Perm.swap w v ws) (Perm.cons w (insert_sorted-Perm compare v ws)))
]

sort-Perm : (compare : Value → Value → ℤ) (vs : List Value) → Perm vs (sort compare vs)
unfolding sort
sort-Perm compare [] = Perm.rfl
sort-Perm compare (v ∷ vs) =
    Perm.trans (Perm.cons v (sort-Perm compare vs)) (insert_sorted-Perm compare v (sort compare vs))

-- The snapshot of a view with the comparator that was built for a collection is a rearrangement of its
-- records, in which each record is at most the next one.
pub snapshot_view-IsOrdered :
    (d : SchemaDictionary) (collection : Text) (cs : List OrderClause) (compare : Value → Value → ℤ)
    (view : MaterializedView)
    → build_collection_comparator d collection cs ≡ ok compare
    → view.comparator ≡ compare
    → (vs : List Value) × (snapshot_view view ≡ arr (from_items vs))
      × Perm (values view.records) vs
      × IsOrdered compare vs
unfolding snapshot_view
snapshot_view-IsOrdered d collection cs compare view built h = (
  sort view.comparator (values view.records),
  refl,
  sort-Perm view.comparator (values view.records),
  rw h (
      sort-IsOrdered compare (build_collection_comparator-negate d collection cs compare built)
        (values view.records)),
)
