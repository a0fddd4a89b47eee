-- ===== src/Presence/BroadcastLaws.antt =====
-- What a broadcast means for the entry of each single user.
use zyncbase.Presence.Users.{PresenceEntry, Users, get, set_user_entry}
use zyncbase.Presence.UsersLaws.{IsIndexed}
use zyncbase.Presence.Map.{
  set_user_entry-IsIndexed, remove_user_entry-IsIndexed, get-set_user_entry, get-remove_user_entry,
}
use zyncbase.Presence.Broadcast.{
  Event, join, update, leave, BroadcastEntry, joined, merged, apply_broadcast_update,
  apply_broadcast_join, apply_event, apply_broadcast_entries, decode_presence_user_id,
  is_relevant_change, Presence,
}
use zyncbase.Prelude.Result.{Result, ok, err, Result-cases}
use zyncbase.Prelude.Dict.{lookup}
use zyncbase.Prelude.{
  ◌≡◌, Option, none, some, List, [], ◌∷◌, if◌then◌else◌, refl, ap, ◌∙◌, inl, inr, Bool, ◌||◌,
  Option-cases, get_elem?, Bool-cases,
}
use zyncbase.Prelude.Text.{Text, text_eq, text_eq_iff}

-- What an event makes of the entry of its user.
abbrev pub entry_after : Event → Text → BroadcastEntry → Option PresenceEntry → Option PresenceEntry
entry_after leave user_id e old = none
entry_after join user_id e old = some (joined user_id e)
entry_after update user_id e none = some (joined user_id e)
entry_after update user_id e (some existing) = some (merged user_id e existing)

-- What a list of events makes of the entry of the user `j`; the list counts up to the first entry
-- whose user id cannot be decoded.
unfoldable pub entry_after_all :
    Text → List BroadcastEntry → Option PresenceEntry → Option PresenceEntry
unfolding decode_presence_user_id
entry_after_all j [] old = old
entry_after_all j (e ∷ es) old = elim (decode_presence_user_id e.user_id) [
  | err t ↦ old
  | ok user_id ↦
      entry_after_all j es (if text_eq user_id j then entry_after e.event user_id e old else old)
]

-- An update of a known user is a write of the merged entry.
update_known :
    (k : Text) (e : BroadcastEntry) (u : Users) (existing : PresenceEntry)
    → get k u ≡ some existing
    → apply_broadcast_update k e u ≡ set_user_entry (merged k e existing) u
unfolding apply_broadcast_update set_user_entry get
update_known k e u existing h = elim (Option-cases (lookup k u.indexes)) [
  | inl absent ↦ cc (rw absent at h)
  | inr (i, known) ↦
      let here : get_elem? u.entries i ≡ some existing = rw known at h in
      rw (known, here, apply_broadcast_update, set_user_entry) refl
]

update_new :
    (k : Text) (e : BroadcastEntry) (u : Users)
    → IsIndexed u
    → get k u ≡ none
    → apply_broadcast_update k e u ≡ set_user_entry (joined k e) u
unfolding apply_broadcast_update get
update_new k e u h missing = elim (Option-cases (lookup k u.indexes)) [
  | inl absent ↦ rw (absent, apply_broadcast_update) refl
  | inr (i, known) ↦
      let (e', place, _) = h.index_entry k i known in
      let gone : get_elem? u.entries i ≡ none = rw known at missing in cc
]

-- An update is a write of an entry, which one depends on the one that is there.
update_write :
    (k : Text) (e : BroadcastEntry) (u : Users)
    → IsIndexed u
    → (w : PresenceEntry) × (w.user_id ≡ k)
      × (some w ≡ entry_after update k e (get k u))
      × (apply_broadcast_update k e u ≡ set_user_entry w u)
update_write k e u h = elim (Option-cases (get k u)) [
  | inl missing ↦ (joined k e, refl, rw missing refl, update_new k e u h missing)
  | inr (old, found) ↦ (merged k e old, refl, rw found refl, update_known k e u old found)
]

apply_event-IsIndexed :
    (event : Event) (k : Text) (e : BroadcastEntry) (u : Users)
    → IsIndexed u
    → IsIndexed (apply_event event k e u)
unfolding apply_event apply_broadcast_join
apply_event-IsIndexed leave k e u h = remove_user_entry-IsIndexed k u h
apply_event-IsIndexed join k e u h = set_user_entry-IsIndexed (joined k e) u h
apply_event-IsIndexed update k e u h =
    let (w, _, _, same) = update_write k e u h in rw same (set_user_entry-IsIndexed w u h)

get-apply_event :
    (event : Event) (k j : Text) (e : BroadcastEntry) (u : Users)
    → IsIndexed u
    → get j (apply_event event k e u)
      ≡ (if text_eq k j then entry_after event k e (get j u) else get j u)
unfolding apply_event apply_broadcast_join
get-apply_event leave k j e u h = get-remove_user_entry k j u h
get-apply_event join k j e u h = get-set_user_entry (joined k e) j u h
get-apply_event update k j e u h =
    let (w, owner, new, same) = update_write k e u h in
    rw (same, get-set_user_entry w j u h, owner)
      (elim (Bool-cases (text_eq k j)) [
        | inl own ↦ rw (own, new, (text_eq_iff k j).0 own) refl
        | inr other ↦ rw (other) refl
      ])

-- A broadcast keeps the array and the index map in agreement, and does to the entry of each user
-- what the events of that user say, in their order, up to the first entry whose id is invalid.
pub get-apply_broadcast_entries :
    (me : Option Text) (es : List BroadcastEntry) (u : Users) (changed : Bool) (j : Text)
    → IsIndexed u
    → (get j (apply_broadcast_entries me es u changed).0 ≡ entry_after_all j es (get j u))
      × IsIndexed (apply_broadcast_entries me es u changed).0
unfolding apply_broadcast_entries entry_after_all
get-apply_broadcast_entries me [] u changed j h = (refl, h)
get-apply_broadcast_entries me (e ∷ es) u changed j h =
    elim (Result-cases (decode_presence_user_id e.user_id)) [
      | inl (t, bad) ↦ rw (bad, apply_broadcast_entries, entry_after_all) (refl, h)
      | inr (k, good) ↦
          let (read, valid) =
            get-apply_broadcast_entries me es (apply_event e.event k e u)
              (is_relevant_change me k || changed) j (apply_event-IsIndexed e.event k e u h) in
          rw (good, apply_broadcast_entries, entry_after_all)
            (read ∙ ap (entry_after_all j es) (get-apply_event e.event k j e u h), valid)
    ]
