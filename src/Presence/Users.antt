-- ===== src/Presence/Users.antt =====
-- The user cache of `PresenceImpl`: an array of entries, and a map from user ids to its indices.
use zyncbase.Prelude.{
  ℕ, ◌-◌, Bool, Option, none, some, List, [], ◌∷◌, ◌++◌, ◌==◌, if◌then◌else◌, length, get_elem?,
  set,
}
use zyncbase.Prelude.Dict.{Dict, lookup, insert, delete}
use zyncbase.Json.{Fields}
use zyncbase.Prelude.Text.{Text}

pub record PresenceEntry : Type 0 where
  pub user_id : Text
  pub fields : Fields
  pub joined_at : ℕ

pub record Users : Type 0 where
  pub entries : List PresenceEntry
  pub indexes : Dict ℕ

-- `entries.pop()`
unfoldable pub pop : {A : Type 0} → List A → List A
pop [] = []
pop (x ∷ []) = []
pop (x ∷ y ∷ xs) = x ∷ pop (y ∷ xs)

-- `setUserEntry`
unfoldable pub set_user_entry : PresenceEntry → Users → Users
unfolding lookup insert
set_user_entry e u = elim (lookup e.user_id u.indexes) [
  | none ↦ record {
    indexes = insert e.user_id (length u.entries) u.indexes;
    entries = u.entries ++ e ∷ [];
  }
  | some i ↦ record u { entries = set u.entries i e }
]

-- The move of the last entry in `removeUserEntry`; the entry is read as `userEntries[lastIndex]`.
abbrev pub move_last : ℕ → ℕ → Option PresenceEntry → Users → Users
move_last i last none u = u
move_last i last (some e) u =
    if i == last
    then u
    else record { entries = set u.entries i e; indexes = insert e.user_id i u.indexes }

-- `removeUserEntry`
unfoldable pub remove_user_entry : Text → Users → Users
unfolding lookup insert delete pop
remove_user_entry user_id u = elim (lookup user_id u.indexes) [
  | none ↦ u
  | some i ↦
      let last = length u.entries - 1 in
      let moved = move_last i last (get_elem? u.entries last) u in
      record { entries = pop moved.entries; indexes = delete user_id moved.indexes }
]

-- `clearUserCache`
unfoldable pub clear_user_cache : Users
clear_user_cache = record { entries = []; indexes = [] }

abbrev pub at_index : List PresenceEntry → Option ℕ → Option PresenceEntry
at_index es none = none
at_index es (some i) = get_elem? es i

-- `get`
unfoldable pub get : Text → Users → Option PresenceEntry
unfolding lookup
get user_id u = at_index u.entries (lookup user_id u.indexes)

-- The entries without the one at the index, the last one moved to its place.
abbrev pub without : List PresenceEntry → Option ℕ → Option PresenceEntry → List PresenceEntry
without es (some i) (some e) = pop (set es i e)
without es _ _ = es

abbrev pub self_index : Users → Option Text → Option ℕ
self_index u none = none
self_index u (some []) = none
self_index u (some (c ∷ s)) = lookup (c ∷ s) u.indexes

-- `getAll`
unfoldable pub get_all :
    (include_self : Bool) → (local_user_id : Option Text) → Users → List PresenceEntry
unfolding pop lookup
get_all include_self local_user_id u =
    if include_self
    then u.entries
    else without u.entries (self_index u local_user_id) (get_elem? u.entries (length u.entries - 1))
