-- ===== src/Presence/Broadcast.antt =====
-- What `PresenceImpl` of sdk/typescript/src/presence.ts does with a broadcast and a snapshot, and
-- `decodePresenceUserId` of schema_dictionary.ts, whose length error is modelled without the length.
use zyncbase.Presence.Users.{
  PresenceEntry, Users, set_user_entry, remove_user_entry, clear_user_cache, get_all,
}
use zyncbase.DocId.{unpack_doc_id}
use zyncbase.DocId.Caching.{no_caches}
use zyncbase.Prelude.Dict.{lookup}
use zyncbase.DocId.Short.{Bytes}
use zyncbase.Errors.{Thrown, zync, plain_error}
use zyncbase.Json.{Fields, end, assign}
use zyncbase.Prelude.Result.{Result, ok, err}
use zyncbase.Prelude.{
  ℕ, Bool, true, false, not, ◌||◌, Option, none, some, List, [], ◌∷◌, ◌++◌, map, ◌==◌,
  if◌then◌else◌, length, get_elem?, set,
}
use zyncbase.Prelude.Text.{Text, text, text_eq}

-- A call that can throw gives the state in any case.
abbrev pub thrown_by : {E A B : Type 0} → (E → B) → Result E A → Result B A
thrown_by f (ok a) = ok a
thrown_by f (err e) = err (f e)

-- `decodePresenceUserId`; the caches of `unpackDocId` do not change its results.
unfoldable pub decode_presence_user_id : Bytes → Result Thrown Text
unfolding unpack_doc_id
decode_presence_user_id bin =
    if length bin == 16
    then thrown_by zync (unpack_doc_id no_caches bin).0
    else err (plain_error (text "SchemaDictionary: invalid userId binary length"))

pub data Event : Type 0 where
  join update leave : Event

pub record BroadcastEntry : Type 0 where
  pub user_id : Bytes
  pub event : Event
  pub fields : Option Fields
  pub joined_at : Option ℕ

abbrev pub or_empty : Option Fields → Fields
or_empty none = end
or_empty (some fs) = fs

abbrev pub or_zero : Option ℕ → ℕ
or_zero none = 0
or_zero (some n) = n

-- `isRelevantChange`
abbrev pub is_relevant_change : Option Text → Text → Bool
is_relevant_change none user_id = true
is_relevant_change (some me) user_id = not (text_eq user_id me)

-- The entry that `applyBroadcastJoin` sets, and `applyBroadcastUpdate` for a new user.
abbrev pub joined : Text → BroadcastEntry → PresenceEntry
joined user_id e = record {
  user_id = user_id;
  fields = or_empty e.fields;
  joined_at = or_zero e.joined_at;
}

-- `applyBroadcastJoin`
unfoldable pub apply_broadcast_join : Text → BroadcastEntry → Users → Users
unfolding set_user_entry
apply_broadcast_join user_id e u = set_user_entry (joined user_id e) u

-- The entry of a known user after an update.
abbrev pub merged : Text → BroadcastEntry → PresenceEntry → PresenceEntry
merged user_id e existing = record {
  user_id = user_id;
  joined_at = existing.joined_at;
  fields = assign existing.fields (or_empty e.fields);
}

-- `userEntries[index] = …`, for an index in range.
abbrev pub merge_at : Text → BroadcastEntry → ℕ → Option PresenceEntry → Users → Users
merge_at user_id e i none u = u
merge_at user_id e i (some existing) u = record u {
  entries = set u.entries i (merged user_id e existing);
}

-- `applyBroadcastUpdate`
unfoldable pub apply_broadcast_update : Text → BroadcastEntry → Users → Users
unfolding set_user_entry lookup assign
apply_broadcast_update user_id e u = elim (lookup user_id u.indexes) [
  | none ↦ set_user_entry (joined user_id e) u
  | some i ↦ merge_at user_id e i (get_elem? u.entries i) u
]

unfoldable pub apply_event : Event → Text → BroadcastEntry → Users → Users
unfolding remove_user_entry apply_broadcast_join apply_broadcast_update
apply_event leave user_id e u = remove_user_entry user_id u
apply_event join user_id e u = apply_broadcast_join user_id e u
apply_event update user_id e u = apply_broadcast_update user_id e u

-- The loop of `handlePresenceBroadcast` over `applyBroadcastEntry`: the entries before one whose id
-- cannot be decoded stay applied.
unfoldable pub apply_broadcast_entries :
    Option Text → List BroadcastEntry → Users → Bool → Users × Result Thrown Bool
unfolding decode_presence_user_id apply_event
apply_broadcast_entries me [] u changed = (u, ok changed)
apply_broadcast_entries me (e ∷ es) u changed = elim (decode_presence_user_id e.user_id) [
  | err t ↦ (u, err t)
  | ok user_id ↦
      apply_broadcast_entries me es (apply_event e.event user_id e u)
        (is_relevant_change me user_id || changed)
]

pub record SnapshotUser : Type 0 where
  pub user_id : Bytes
  pub fields : Fields
  pub joined_at : Option ℕ

-- The loop of `populateUserCacheFromSnapshot`.
unfoldable pub add_snapshot_users : List SnapshotUser → Users → Users × Option Thrown
unfolding decode_presence_user_id set_user_entry
add_snapshot_users [] u = (u, none)
add_snapshot_users (user ∷ users) u = elim (decode_presence_user_id user.user_id) [
  | err t ↦ (u, some t)
  | ok user_id ↦ add_snapshot_users users (
      set_user_entry
        (record { user_id = user_id; fields = user.fields; joined_at = or_zero user.joined_at }) u)
]

-- `populateUserCacheFromSnapshot`; `none` if `ok.users` is no array.
unfoldable pub populate_user_cache : Option (List SnapshotUser) → Users → Users × Option Thrown
unfolding add_snapshot_users clear_user_cache
populate_user_cache none u = (clear_user_cache, none)
populate_user_cache (some users) u = add_snapshot_users users clear_user_cache

-- The fields of `PresenceImpl` that broadcasts read or change. Callbacks are numbered, and the two
-- logs hold what each was called with, in order.
pub record Presence : Type 0 where
  pub users : Users
  pub shared_cache : Option Fields
  pub local_user_id : Option Text
  pub user_sub_id : Option ℕ
  pub shared_sub_id : Option ℕ
  pub user_callbacks : List ℕ
  pub shared_callbacks : List ℕ
  pub user_calls : List (ℕ × List PresenceEntry)
  pub shared_calls : List (ℕ × Option Fields)

abbrev pub is_sub : ℕ → Option ℕ → Bool
is_sub id none = false
is_sub id (some sub) = id == sub

-- `fireUserCallbacks`
unfoldable pub fire_user_callbacks : Presence → Presence
unfolding get_all
fire_user_callbacks s =
    let users = get_all false s.local_user_id s.users in
    record s { user_calls = s.user_calls ++ map (λ cb. (cb, users)) s.user_callbacks }

-- What follows the loop of `handlePresenceBroadcast`.
unfoldable pub after_entries : Presence → Users × Result Thrown Bool → Presence × Option Thrown
unfolding fire_user_callbacks
after_entries s (u, err t) = (record s { users = u }, some t)
after_entries s (u, ok true) = (fire_user_callbacks (record s { users = u }), none)
after_entries s (u, ok false) = (record s { users = u }, none)

-- `handlePresenceBroadcast`
unfoldable pub handle_presence_broadcast :
    ℕ → List BroadcastEntry → Presence → Presence × Option Thrown
unfolding after_entries apply_broadcast_entries
handle_presence_broadcast sub_id entries s =
    if is_sub sub_id s.user_sub_id
    then after_entries s (apply_broadcast_entries s.local_user_id entries s.users false)
    else (s, none)

-- The loop of `handleSharedStateBroadcast`.
unfoldable pub merge_patches : List Fields → Option Fields → Option Fields
unfolding assign
merge_patches [] shared = shared
merge_patches (p ∷ ps) shared = merge_patches ps (some (assign (or_empty shared) p))

-- `fireSharedCallbacks`, for the new cache.
abbrev pub publish_shared : Option Fields → Presence → Presence
publish_shared shared s = record s {
  shared_cache = shared;
  shared_calls = s.shared_calls ++ map (λ cb. (cb, shared)) s.shared_callbacks;
}

-- `handleSharedStateBroadcast`, with `fireSharedCallbacks`.
unfoldable pub handle_shared_state_broadcast : ℕ → List Fields → Presence → Presence
unfolding merge_patches
handle_shared_state_broadcast sub_id patches s =
    if is_sub sub_id s.shared_sub_id
    then publish_shared (merge_patches patches s.shared_cache) s
    else s

-- `invalidate`, without its throttle: what the user sees of the old scope is gone.
unfoldable pub invalidate : Presence → Presence
unfolding clear_user_cache
invalidate s = record s {
  users = clear_user_cache;
  shared_cache = none;
  local_user_id = none;
  user_sub_id = none;
  shared_sub_id = none;
}
