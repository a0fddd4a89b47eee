-- ===== src/Schema.antt =====
-- sdk/typescript/src/schema_dictionary.ts: the names of tables, fields and actions and the integers
-- that stand for them on the wire. The server pushes them; each connection may bring new ones.
-- Numbers that the source puts into its messages are left out of the messages here.
pub mod Build
pub mod Paths
pub mod Invariant
pub mod PathLaws
pub mod Sparse
pub mod SparseLaws
pub mod Records
pub mod RecordLaws
use zyncbase.Prelude.Dict.{Dict}
use zyncbase.Prelude.{ℕ, ◌/◌, ◌%◌, Bool, false, not, Option, none, some, List, [], ◌==◌}
use zyncbase.Prelude.Text.{Text}

-- What `SchemaSync` brings; the actions and the presence fields may be absent.
pub record SchemaSync : Type 0 where
  pub tables : List Text
  pub fields : List (List Text)
  pub field_flags : List (List ℕ)
  pub presence_user_fields : Option (List Text)
  pub presence_shared_fields : Option (List Text)
  pub actions : Option (List Text)
  pub action_params : Option (List (List Text))
  pub action_returns : Option (List (List Text))
  pub action_flags : Option (List ℕ)

pub data Scope : Type 0 where
  store presence : Scope

pub record ActionSchemaEntry : Type 0 where
  pub id : ℕ
  pub name : Text
  pub scope : Scope
  pub has_returns : Bool
  pub params : List Text
  pub returns : List Text
  pub param_field_to_index : Dict ℕ
  pub return_field_to_index : Dict ℕ
  pub param_paths : List (Option (List Text))
  pub return_paths : List (Option (List Text))

pub record SchemaDictionary : Type 0 where
  pub tables : List Text
  pub fields : List (List Text)
  pub field_flags : List (List ℕ)
  pub field_paths : List (List (Option (List Text)))
  pub presence_user_fields : List Text
  pub presence_shared_fields : List Text
  pub presence_user_field_paths : List (Option (List Text))
  pub presence_shared_field_paths : List (Option (List Text))
  pub table_to_index : Dict ℕ
  pub field_to_index : List (ℕ × Dict ℕ)
  pub presence_user_field_to_index : Dict ℕ
  pub presence_shared_field_to_index : Dict ℕ
  pub action_names : List Text
  pub action_params : List (List Text)
  pub action_returns : List (List Text)
  pub action_flags : List ℕ
  pub action_to_index : Dict ℕ
  pub actions_by_index : List ActionSchemaEntry
  pub hash : Option ℕ
  pub previous_hash : Option ℕ
  pub ready : Bool

-- `new SchemaDictionary()`
abbrev pub new_dictionary : SchemaDictionary
new_dictionary = record {
  tables = [];
  fields = [];
  field_flags = [];
  field_paths = [];
  presence_user_fields = [];
  presence_shared_fields = [];
  presence_user_field_paths = [];
  presence_shared_field_paths = [];
  table_to_index = [];
  field_to_index = [];
  presence_user_field_to_index = [];
  presence_shared_field_to_index = [];
  action_names = [];
  action_params = [];
  action_returns = [];
  action_flags = [];
  action_to_index = [];
  actions_by_index = [];
  hash = none;
  previous_hash = none;
  ready = false;
}

-- `xs ?? []`
abbrev pub or_none {ℓ} : {A : Type ℓ} → Option (List A) → List A
or_none none = []
or_none (some xs) = xs

-- `flags & 0b01` and its like, for the bit of weight `w`.
abbrev pub has_bit : ℕ → ℕ → Bool
has_bit flags w = not (flags / w % 2 == 0)
