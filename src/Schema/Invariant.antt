-- ===== src/Schema/Invariant.antt =====
-- What holds of every dictionary that `processSchemaSync` has built.
use mathlib.Core.Option
use zyncbase.Prelude.Result.{◌>>◌, ok, Result-cases}
use zyncbase.Schema.{SchemaSync, SchemaDictionary, or_none}
use zyncbase.Schema.Build.{
  index_names, build_field_index_map, index_fields, process_schema_sync,
  validate_schema_sync_payload, validate_action_arrays, build_field_paths, same_lengths, field_path,
  includes_delimiter,
}
use zyncbase.Prelude.Dict.{Dict, lookup, insert, lookup-insert}
use zyncbase.Prelude.Table.{find, put, find-put}
use zyncbase.Prelude.{
  ℕ, zero, suc, ◌+◌, ◌≡◌, ap, ◌⊎◌, inl, inr, false, some, List, [], ◌∷◌, arith, Bool-cases,
  get_elem?, true, map, length, ◌<◌, refl, ◌∙◌, Bool, Option, none, ==_iff,
}
use zyncbase.Path.{split_field_path}
use zyncbase.Prelude.Text.{Text, text_eq, text_eq_iff}

-- The map gives only indexes at which the list has the name.
abbrev pub Indexes : List Text → Dict ℕ → Type 0
Indexes names m = (k : Text) (i : ℕ) → lookup k m ≡ some i → get_elem? names i ≡ some k

-- And it has every name.
abbrev pub Covers : List Text → Dict ℕ → Type 0
Covers names m = (k : Text) (i : ℕ) → get_elem? names i ≡ some k → (j : ℕ) × (lookup k m ≡ some j)

-- What the loop does: a name gets an index of its own, the last one, or keeps the old entry.
lookup-index_names :
    (i : ℕ) (names : List Text) (m : Dict ℕ) (k : Text) (j : ℕ)
    → lookup k (index_names i names m) ≡ some j
    → (lookup k m ≡ some j) ⊎ ((n : ℕ) × (j ≡ i + n) × (get_elem? names n ≡ some k))
unfolding index_names
lookup-index_names i [] m k j h = inl h
lookup-index_names i (name ∷ names) m k j h =
    elim (lookup-index_names (suc i) names (insert name i m) k j h) [
      | inr (n, e, there) ↦ inr (suc n, omega arith, there)
      | inl old ↦ elim (Bool-cases (text_eq name k)) [
        | inl same ↦
            inr (
              zero,
              ground (arith, lookup-insert name k i m),
              ap some ((text_eq_iff name k).0 same),
            )
        | inr other ↦ inl (ground (arith, lookup-insert name k i m))
      ]
    ]

has_index :
    (i : ℕ) (names : List Text) (m : Dict ℕ) (k : Text)
    → ((j : ℕ) × (lookup k m ≡ some j)) ⊎ ((n : ℕ) × (get_elem? names n ≡ some k))
    → (j : ℕ) × (lookup k (index_names i names m) ≡ some j)
unfolding index_names
has_index i [] m k (inl old) = old
has_index i [] m k (inr (n, there)) = cc
has_index i (name ∷ names) m k h = elim (Bool-cases (text_eq name k)) [
  | inl same ↦
      has_index (suc i) names (insert name i m) k
        (inl (i, ground (arith, lookup-insert name k i m)))
  | inr other ↦ has_index (suc i) names (insert name i m) k (later i name names m k other h)
]
  where
    later :
        (i : ℕ) (name : Text) (names : List Text) (m : Dict ℕ) (k : Text)
        → text_eq name k ≡ false
        → ((j : ℕ) × (lookup k m ≡ some j)) ⊎ ((n : ℕ) × (get_elem? (name ∷ names) n ≡ some k))
        → ((j : ℕ) × (lookup k (insert name i m) ≡ some j))
          ⊎ ((n : ℕ) × (get_elem? names n ≡ some k))
    later i name names m k other (inl (j, old)) = inl (j, ground (arith, lookup-insert name k i m))
    later i name names m k other (inr (zero, there)) =
        let same : name ≡ k = cc in let t = (text_eq_iff name k).1 same in cc
    later i name names m k other (inr (suc n, there)) = inr (n, there)

pub index_names-Indexes : (names : List Text) → Indexes names (index_names 0 names [])
unfolding lookup
index_names-Indexes names k i h = elim (lookup-index_names 0 names [] k i h) [
  | inl old ↦ cc
  | inr (n, e, there) ↦ let same : i ≡ n = omega arith in rw same there
]

pub index_names-Covers : (names : List Text) → Covers names (index_names 0 names [])
index_names-Covers names k i h = has_index 0 names [] k (inr (i, h))

-- The field map of a table leads back to its list of fields, and has each of them.
abbrev pub HasFieldMap : ℕ → List Text → List (ℕ × Dict ℕ) → Type 0
HasFieldMap ti names maps =
    (m : Dict ℕ) × (find ti maps ≡ some m) × Indexes names m × Covers names m

-- Each field has an entry in the list of paths: its parts, if it holds "__", and else nothing.
abbrev pub IsPath : Text → Option (List Text) → Type 0
IsPath k path =
    ((includes_delimiter k ≡ false) × (path ≡ none))
    ⊎ ((includes_delimiter k ≡ true) × (path ≡ some (split_field_path k)))

abbrev pub HasPaths : List Text → List (Option (List Text)) → Type 0
HasPaths names paths =
    (k : Text) (i : ℕ)
    → get_elem? names i ≡ some k
    → (path : Option (List Text)) × (get_elem? paths i ≡ some path) × IsPath k path

field_path-IsPath : (k : Text) → IsPath k (field_path k)
unfolding field_path
field_path-IsPath k = elim (Bool-cases (includes_delimiter k)) [
  | inl split ↦ rw split (inr (refl, refl))
  | inr whole ↦ rw whole (inl (refl, refl))
]

pub build_field_paths-HasPaths : (names : List Text) → HasPaths names (build_field_paths names)
unfolding build_field_paths
build_field_paths-HasPaths [] k i h = cc
build_field_paths-HasPaths (name ∷ names) k zero h =
    let same : name ≡ k = cc in (field_path name, refl, rw (← same) (field_path-IsPath name))
build_field_paths-HasPaths (name ∷ names) k (suc i) h = build_field_paths-HasPaths names k i h

-- The dictionary's maps lead back to its lists, and miss none of their names; each field has its path.
pub record IsConsistent (d : SchemaDictionary) : Type 0 where
  pub tables_indexed : Indexes d.tables d.table_to_index
  pub tables_covered : Covers d.tables d.table_to_index
  pub fields_mapped :
      (ti : ℕ) (names : List Text)
      → get_elem? d.fields ti ≡ some names
      → HasFieldMap ti names d.field_to_index
  pub no_other_map :
      (ti : ℕ) (m : Dict ℕ)
      → find ti d.field_to_index ≡ some m
      → (names : List Text) × (get_elem? d.fields ti ≡ some names) × Indexes names m
  pub flags_counted : same_lengths d.field_flags d.fields ≡ true
  pub same_tables : length d.field_flags ≡ length d.fields
  pub user_fields_covered : Covers d.presence_user_fields d.presence_user_field_to_index
  pub shared_fields_covered : Covers d.presence_shared_fields d.presence_shared_field_to_index
  pub actions_covered : Covers d.action_names d.action_to_index
  pub user_fields_indexed : Indexes d.presence_user_fields d.presence_user_field_to_index
  pub user_paths_built : HasPaths d.presence_user_fields d.presence_user_field_paths
  pub shared_fields_indexed : Indexes d.presence_shared_fields d.presence_shared_field_to_index
  pub shared_paths_built : HasPaths d.presence_shared_fields d.presence_shared_field_paths
  pub paths_built :
      (ti : ℕ) (names : List Text)
      → get_elem? d.fields ti ≡ some names
      → (paths : List (Option (List Text))) × (get_elem? d.field_paths ti ≡ some paths)
        × HasPaths names paths
  pub actions_indexed : Indexes d.action_names d.action_to_index

find-index_fields_below :
    (ti : ℕ) (rows : List (List Text)) (m : List (ℕ × Dict ℕ)) (k : ℕ)
    → k < ti
    → find k (index_fields ti rows m) ≡ find k m
unfolding index_fields
find-index_fields_below ti [] m k below = refl
find-index_fields_below ti (names ∷ rest) m k below =
    find-index_fields_below (suc ti) rest (put ti (build_field_index_map names) m) k (omega arith)
    ∙ ground (arith, find-put ti k (build_field_index_map names) m)

abbrev first_of : {A : Type 0} → Option A → Option A → Option A
first_of none b = b
first_of (some a) b = some a

-- `index_fields` gives each table the map of its own fields.
find-index_fields :
    (ti : ℕ) (rows : List (List Text)) (m : List (ℕ × Dict ℕ)) (n : ℕ)
    → find (ti + n) (index_fields ti rows m)
      ≡ first_of (Option.map build_field_index_map (get_elem? rows n)) (find (ti + n) m)
unfolding index_fields
find-index_fields ti [] m n = refl
find-index_fields ti (names ∷ rest) m zero =
    find-index_fields_below (suc ti) rest (put ti (build_field_index_map names) m) (ti + 0)
      (omega arith)
    ∙ ground (arith, find-put ti (ti + 0) (build_field_index_map names) m)
find-index_fields ti (names ∷ rest) m (suc n) =
    let moved : ti + suc n ≡ suc ti + n = omega arith in
    rw moved (
      find-index_fields (suc ti) rest (put ti (build_field_index_map names) m) n
      ∙ ap (first_of (Option.map build_field_index_map (get_elem? rest n)))
          (ground (arith, find-put ti (suc ti + n) (build_field_index_map names) m)))

first_of-none : {A : Type 0} (o : Option A) → first_of o none ≡ o
first_of-none none = refl
first_of-none (some a) = refl

field_maps_of :
    (rows : List (List Text)) (ti : ℕ)
    → find ti (index_fields 0 rows []) ≡ Option.map build_field_index_map (get_elem? rows ti)
unfolding find
field_maps_of rows ti =
    let moved : 0 + ti ≡ ti = omega arith in
    rw moved at (find-index_fields 0 rows [] ti) ∙ first_of-none _

field_map_there :
    (o : Option (List Text)) (f : Option (Dict ℕ)) (names : List Text)
    → f ≡ Option.map build_field_index_map o
    → o ≡ some names
    → (m : Dict ℕ) × (f ≡ some m) × Indexes names m × Covers names m
unfolding build_field_index_map
field_map_there none f names h e = cc
field_map_there (some listed) f names h e =
    let same : listed ≡ names = cc in
    (
      build_field_index_map names,
      h ∙ ap (λ l. some (build_field_index_map l)) same,
      index_names-Indexes names,
      index_names-Covers names,
    )

field_map_from :
    (o : Option (List Text)) (f : Option (Dict ℕ)) (m : Dict ℕ)
    → f ≡ Option.map build_field_index_map o
    → f ≡ some m
    → (names : List Text) × (o ≡ some names) × Indexes names m
unfolding build_field_index_map
field_map_from none f m h e = cc
field_map_from (some listed) f m h e =
    let same : build_field_index_map listed ≡ m = cc in
    (listed, refl, rw (← same) (index_names-Indexes listed))

paths_of :
    (rows : List (List Text)) (ti : ℕ) (names : List Text)
    → get_elem? rows ti ≡ some names
    → (paths : List (Option (List Text))) × (get_elem? (map build_field_paths rows) ti ≡ some paths)
      × HasPaths names paths
paths_of [] ti names h = cc
paths_of (row ∷ rows) zero names h =
    let same : row ≡ names = cc in
    (build_field_paths row, refl, rw (← same) (build_field_paths-HasPaths row))
paths_of (row ∷ rows) (suc ti) names h = paths_of rows ti names h

validated :
    (p : SchemaSync)
    → (validate_schema_sync_payload p >> validate_action_arrays p) ≡ ok tt
    → (length p.field_flags ≡ length p.fields) × (same_lengths p.field_flags p.fields ≡ true)
unfolding validate_schema_sync_payload
validated p h = ground (arith, ==_iff (length p.field_flags) (length p.fields))

pub process_schema_sync-IsConsistent :
    (digest : SchemaSync → ℕ) (p : SchemaSync) (d : SchemaDictionary) (changed : Bool)
    → (process_schema_sync digest p d).1 ≡ ok changed
    → IsConsistent (process_schema_sync digest p d).0
unfolding process_schema_sync
process_schema_sync-IsConsistent digest p d changed h =
    elim (Result-cases (validate_schema_sync_payload p >> validate_action_arrays p)) [
      | inl (t, bad) ↦ cc (rw (bad, process_schema_sync) at h)
      | inr (_, good) ↦
          let (tables_match, rows_match) = validated p good in
          rw (good, process_schema_sync)
            (record {
              tables_indexed = index_names-Indexes p.tables;
              tables_covered = index_names-Covers p.tables;
              fields_mapped = λ ti names there.
                  field_map_there (get_elem? p.fields ti) _ names (field_maps_of p.fields ti) there;
              no_other_map = λ ti m there.
                  field_map_from (get_elem? p.fields ti) _ m (field_maps_of p.fields ti) there;
              user_fields_covered = index_names-Covers (or_none p.presence_user_fields);
              shared_fields_covered = index_names-Covers (or_none p.presence_shared_fields);
              actions_covered = index_names-Covers (or_none p.actions);
              flags_counted = rows_match;
              same_tables = tables_match;
              user_fields_indexed = index_names-Indexes (or_none p.presence_user_fields);
              user_paths_built = build_field_paths-HasPaths (or_none p.presence_user_fields);
              shared_fields_indexed = index_names-Indexes (or_none p.presence_shared_fields);
              shared_paths_built = build_field_paths-HasPaths (or_none p.presence_shared_fields);
              paths_built = λ ti names there. paths_of p.fields ti names there;
              actions_indexed = index_names-Indexes (or_none p.actions);
            })
    ]
