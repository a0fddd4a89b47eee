-- ===== src/Schema/Build.antt =====
-- `processSchemaSync` of `SchemaDictionary`: validation, then the maps. `digest` stands for the hash
-- of the JSON text of a payload, of which the absent parts count as empty.
use zyncbase.Schema.{
  SchemaSync, store, presence, ActionSchemaEntry, SchemaDictionary, or_none, has_bit,
}
use zyncbase.Errors.{Thrown, plain_error}
use zyncbase.Path.{split_field_path}
use zyncbase.Prelude.Dict.{Dict, insert}
use zyncbase.Prelude.Table.{put}
use zyncbase.Prelude.Result.{Result, ok, err, ◌>>◌, guard}
use zyncbase.Prelude.{
  ℕ, suc, Bool, true, false, not, ◌&&◌, Option, none, some, List, [], ◌∷◌, ◌++◌, map, ◌==◌,
  if◌then◌else◌, length, get_elem?, get_or,
}
use zyncbase.Prelude.Text.{Text, text}

-- `field.includes("__")`
unfoldable pub includes_delimiter : Text → Bool
includes_delimiter [] = false
includes_delimiter (c ∷ []) = false
includes_delimiter (c ∷ d ∷ s) =
    let rest = includes_delimiter (d ∷ s) in if c == b'_' && d == b'_' then true else rest

-- `field.includes("__") ? splitFieldPath(field) : undefined`
unfoldable pub field_path : Text → Option (List Text)
unfolding includes_delimiter split_field_path
field_path field = if includes_delimiter field then some (split_field_path field) else none

-- `buildFieldPaths`
unfoldable pub build_field_paths : List Text → List (Option (List Text))
unfolding field_path
build_field_paths fields = map field_path fields

-- The loop `map.set(names[i], i)`, from `i` on.
unfoldable pub index_names : ℕ → List Text → Dict ℕ → Dict ℕ
unfolding insert
index_names i [] m = m
index_names i (name ∷ names) m = index_names (suc i) names (insert name i m)

-- `buildFieldIndexMap`
unfoldable pub build_field_index_map : List Text → Dict ℕ
unfolding index_names
build_field_index_map fields = index_names 0 fields []

-- `buildActionEntry`
unfoldable pub build_action_entry : Text → ℕ → List Text → List Text → ℕ → ActionSchemaEntry
unfolding build_field_index_map build_field_paths
build_action_entry name id params returns flags = record {
  id = id;
  name = name;
  scope = if has_bit flags 2 then presence else store;
  has_returns = has_bit flags 1;
  params = params;
  returns = returns;
  param_field_to_index = build_field_index_map params;
  return_field_to_index = build_field_index_map returns;
  param_paths = build_field_paths params;
  return_paths = build_field_paths returns;
}

abbrev pub mismatch : Text → Thrown
mismatch message = plain_error (text "SchemaDictionary: SchemaSync " ++ message)

-- `validateActionArrays`
unfoldable pub validate_action_arrays : SchemaSync → Result Thrown (Unit {0})
validate_action_arrays p =
    let names = length (or_none p.actions) in
    guard
      (length (or_none p.action_params) == names
        && length (or_none p.action_returns) == names
        && length (or_none p.action_flags) == names)
      (mismatch (text "action dictionary length mismatch"))

-- The loop of `validateSchemaSyncPayload`.
unfoldable pub same_lengths : List (List ℕ) → List (List Text) → Bool
same_lengths (flags ∷ fs) (names ∷ ns) = length flags == length names && same_lengths fs ns
same_lengths _ _ = true

-- `validateSchemaSyncPayload`
unfoldable pub validate_schema_sync_payload : SchemaSync → Result Thrown (Unit {0})
unfolding same_lengths
validate_schema_sync_payload p = do
  guard (length p.field_flags == length p.fields)
      (mismatch (text "fieldFlags table count mismatch"))
  guard (same_lengths p.field_flags p.fields)
      (mismatch (text "fieldFlags length mismatch for table index"))

-- The loop of `buildStoreMaps` over the tables' fields.
unfoldable pub index_fields : ℕ → List (List Text) → List (ℕ × Dict ℕ) → List (ℕ × Dict ℕ)
unfolding build_field_index_map put
index_fields ti [] m = m
index_fields ti (names ∷ rest) m =
    index_fields (suc ti) rest (put ti (build_field_index_map names) m)

-- `buildStoreMaps`
unfoldable pub build_store_maps : SchemaSync → SchemaDictionary → SchemaDictionary
unfolding build_field_paths index_names index_fields
build_store_maps p d = record d {
  tables = p.tables;
  fields = p.fields;
  field_flags = p.field_flags;
  field_paths = map build_field_paths p.fields;
  table_to_index = index_names 0 p.tables [];
  field_to_index = index_fields 0 p.fields [];
}

-- `buildPresenceMaps`
unfoldable pub build_presence_maps : SchemaSync → SchemaDictionary → SchemaDictionary
unfolding build_field_paths index_names
build_presence_maps p d =
    let user = or_none p.presence_user_fields in
    let shared = or_none p.presence_shared_fields in
    record d {
      presence_user_fields = user;
      presence_shared_fields = shared;
      presence_user_field_paths = build_field_paths user;
      presence_shared_field_paths = build_field_paths shared;
      presence_user_field_to_index = index_names 0 user [];
      presence_shared_field_to_index = index_names 0 shared [];
    }

abbrev pub names_at : List (List Text) → ℕ → List Text
names_at xss i = or_none (get_elem? xss i)

-- The `map` of `buildActionMaps`, from the index on.
unfoldable pub build_entries :
    ℕ → List Text → List (List Text) → List (List Text) → List ℕ → List ActionSchemaEntry
unfolding build_action_entry
build_entries index [] params returns flags = []
build_entries index (name ∷ names) params returns flags =
    build_action_entry name index (names_at params index) (names_at returns index)
      (get_or flags index 0)
    ∷ build_entries (suc index) names params returns flags

-- `buildActionMaps`
unfoldable pub build_action_maps : SchemaSync → SchemaDictionary → SchemaDictionary
unfolding index_names build_entries
build_action_maps p d = record d {
  action_names = or_none p.actions;
  action_params = or_none p.action_params;
  action_returns = or_none p.action_returns;
  action_flags = or_none p.action_flags;
  action_to_index = index_names 0 (or_none p.actions) [];
  actions_by_index =
      build_entries 0 (or_none p.actions) (or_none p.action_params) (or_none p.action_returns)
        (or_none p.action_flags);
}

-- What `computeHash` puts into the JSON text.
abbrev pub canonical : SchemaSync → SchemaSync
canonical p = record p {
  presence_user_fields = some (or_none p.presence_user_fields);
  presence_shared_fields = some (or_none p.presence_shared_fields);
  actions = some (or_none p.actions);
  action_params = some (or_none p.action_params);
  action_returns = some (or_none p.action_returns);
  action_flags = some (or_none p.action_flags);
}

-- `computeHash`
abbrev pub compute_hash : (SchemaSync → ℕ) → SchemaSync → ℕ
compute_hash digest p = digest (canonical p)

-- `previousHash !== null && previousHash !== hash`
abbrev pub has_changed : Option ℕ → ℕ → Bool
has_changed none hash = false
has_changed (some old) hash = not (old == hash)

-- `processSchemaSync`: the dictionary afterwards, and whether the schema changed or what was thrown.
unfoldable pub process_schema_sync :
    (SchemaSync → ℕ) → SchemaSync → SchemaDictionary → SchemaDictionary × Result Thrown Bool
unfolding validate_schema_sync_payload validate_action_arrays build_store_maps build_presence_maps
    build_action_maps
process_schema_sync digest p d =
    let started = record d { previous_hash = d.hash } in
    elim (validate_schema_sync_payload p >> validate_action_arrays p) [
      | err t ↦ (started, err t)
      | ok _ ↦
          let hash = compute_hash digest p in
          let built = build_action_maps p (build_presence_maps p (build_store_maps p started)) in
          (record built { hash = some hash; ready = true }, ok (has_changed d.hash hash))
    ]
