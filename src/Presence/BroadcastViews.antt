-- ===== src/Presence/BroadcastViews.antt =====
-- What a broadcast does to a single field of a single user, said without the entries of the code.
use zyncbase.Presence.Users.{PresenceEntry, Users}
use zyncbase.Presence.Broadcast.{
  Event, join, update, leave, BroadcastEntry, decode_presence_user_id,
}
use zyncbase.Json.{Value, Fields, get_prop}
use zyncbase.Json.Laws.{HasDistinctKeys}
use zyncbase.Prelude.Result.{ok, err}
use zyncbase.Prelude.{◌≡◌, ℕ, Option, none, some, List, [], ◌∷◌, if◌then◌else◌}
use zyncbase.Prelude.Text.{Text, text_eq}

-- What is seen of one field of a user: since when the user is there, and the value of the field.
abbrev pub Seen : Type 0
Seen = Option (ℕ × Option Value)

abbrev pub seen : Text → Option PresenceEntry → Seen
seen k none = none
seen k (some e) = some (e.joined_at, get_prop k e.fields)

-- What an event says of the field; its data may be absent.
abbrev pub said : Text → Option Fields → Option Value
said k none = none
said k (some fs) = get_prop k fs

abbrev pub time_or_zero : Option ℕ → ℕ
time_or_zero none = 0
time_or_zero (some n) = n

-- A leave removes the user. A join brings its own time and value only. An update of a user who is
-- there keeps the time, and the value if it has none itself; for another user it is like a join.
abbrev pub seen_after : Event → Option ℕ → Option Value → Seen → Seen
seen_after leave at v old = none
seen_after join at v old = some (time_or_zero at, v)
seen_after update at v none = some (time_or_zero at, v)
seen_after update at none (some (since, old)) = some (since, old)
seen_after update at (some v) (some (since, old)) = some (since, some v)

-- The events of one user in their order, up to the first entry whose user id cannot be decoded.
unfoldable pub seen_after_all : (j k : Text) → List BroadcastEntry → Seen → Seen
unfolding decode_presence_user_id
seen_after_all j k [] old = old
seen_after_all j k (e ∷ es) old = elim (decode_presence_user_id e.user_id) [
  | err t ↦ old
  | ok user_id ↦
      seen_after_all j k es
        (if text_eq user_id j then seen_after e.event e.joined_at (said k e.fields) old else old)
]

-- The data of no event has a property twice.
abbrev pub HaveDistinctKeys : List BroadcastEntry → Type 0
HaveDistinctKeys [] = Unit {0}
HaveDistinctKeys (e ∷ es) =
    ((fs : Fields) → e.fields ≡ some fs → HasDistinctKeys fs) × HaveDistinctKeys es
