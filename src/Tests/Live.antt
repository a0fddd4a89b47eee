-- ===== src/Tests/Live.antt =====
-- Runs of presence.ts of sdk/typescript/src, and its theorems at concrete inputs.
use zyncbase.Json.{num, get_prop, field, end}
use zyncbase.Presence.Broadcast.{join, update, BroadcastEntry, Presence}
use zyncbase.Prelude.{◌≡◌, refl, none, some, [], ◌∷◌, if◌then◌else◌, ℕ, List}
use zyncbase.Presence.Users.{
  PresenceEntry, Users, get, set_user_entry, remove_user_entry, clear_user_cache,
}
use zyncbase.Presence.UsersLaws.{IsIndexed}
use zyncbase.DocId.Short.{encode_short}
use zyncbase.Presence.BroadcastViews.{seen_after_all}
use zyncbase.Prelude.Int.{pos}
use zyncbase.Presence.Map.{
  clear_user_cache-IsIndexed, set_user_entry-IsIndexed, get-remove_user_entry,
}
use zyncbase.Prelude.Text.{text, text_eq}

abbrev ann : PresenceEntry
ann = record { user_id = text "ann"; fields = end; joined_at = 1 }

abbrev bob : PresenceEntry
bob = record { user_id = text "bob"; fields = end; joined_at = 2 }

abbrev two : Users
two = set_user_entry bob (set_user_entry ann clear_user_cache)

two-IsIndexed : IsIndexed two
two-IsIndexed =
    set_user_entry-IsIndexed bob _ (set_user_entry-IsIndexed ann _ clear_user_cache-IsIndexed)

swap_test : (remove_user_entry (text "ann") two).entries ≡ bob ∷ []
unfolding remove_user_entry set_user_entry clear_user_cache text_eq
swap_test = refl

get-remove_user_entry_example :
    get (text "bob") (remove_user_entry (text "ann") two)
    ≡ (if text_eq (text "ann") (text "bob") then none else get (text "bob") two)
get-remove_user_entry_example = get-remove_user_entry (text "ann") (text "bob") two two-IsIndexed

-- The packed id of the user "a".
abbrev ann_bytes : List ℕ
ann_bytes = encode_short (text "a")

abbrev news : BroadcastEntry
news = record { user_id = ann_bytes; event = update; fields = none; joined_at = some 5 }

-- "a" joins with two fields and then updates one of them.
abbrev arrival : BroadcastEntry
arrival = record {
  user_id = ann_bytes;
  event = join;
  fields = some (field (text "x") (num (pos 1)) (field (text "y") (num (pos 2)) end));
  joined_at = some 5;
}

abbrev move : BroadcastEntry
move = record {
  user_id = ann_bytes;
  event = update;
  fields = some (field (text "x") (num (pos 3)) end);
  joined_at = none;
}

moved_test :
    (seen_after_all (text "a") (text "x") (arrival ∷ move ∷ []) none ≡ some (5, some (num (pos 3))))
    × (seen_after_all (text "a") (text "y") (arrival ∷ move ∷ []) none
        ≡ some (5, some (num (pos 2))))
unfolding seen_after_all encode_short text_eq get_prop
moved_test = (refl, refl)

-- The local user is "a", and one callback is registered.
abbrev me : Presence
me = record {
  users = two;
  shared_cache = none;
  local_user_id = some (text "a");
  user_sub_id = some 7;
  shared_sub_id = none;
  user_callbacks = 1 ∷ [];
  shared_callbacks = [];
  user_calls = [];
  shared_calls = [];
}
