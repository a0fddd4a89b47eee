-- ===== src/Wire.antt =====
-- `ConnectionWireCodec` of sdk/typescript/src/connection_wire.ts: requests become the values that
-- MessagePack packs, and what it unpacked becomes messages. A request is its type and the other
-- properties; MessagePack itself is not modelled.
pub mod Encode
pub mod Decode
pub mod Responses
pub mod Laws
use zyncbase.Prelude.{
  ℕ, Bool, true, false, Option, zero, suc, ◌+◌, ◌/◌, ◌%◌, List, [], ◌∷◌, map, ltb, if◌then◌else◌,
}
use zyncbase.Prelude.Text.{Text}
use zyncbase.Prelude.Int.{ℤ}
use zyncbase.Prelude.Table.{find}

pub data MessageType : Type 0 where
  ok_type error_type ping_type schema_sync_type auth_refresh server_disconnect_type : MessageType
  store_set_namespace store_set store_remove store_batch store_query store_subscribe : MessageType
  store_unsubscribe store_load_more store_delta write_committed write_error : MessageType
  presence_set_namespace presence_set presence_set_shared presence_subscribe : MessageType
  presence_unsubscribe presence_subscribe_shared presence_unsubscribe_shared : MessageType
  presence_remove presence_broadcast shared_state_broadcast : MessageType
  action_call action_forward action_reply action_register : MessageType

-- `WireMessageType`
unfoldable pub wire_type : MessageType → ℕ
wire_type ok_type = 0x00
wire_type error_type = 0x01
wire_type ping_type = 0x02
wire_type schema_sync_type = 0x03
wire_type auth_refresh = 0x04
wire_type server_disconnect_type = 0x05
wire_type store_set_namespace = 0x10
wire_type store_set = 0x11
wire_type store_remove = 0x12
wire_type store_batch = 0x13
wire_type store_query = 0x14
wire_type store_subscribe = 0x15
wire_type store_unsubscribe = 0x16
wire_type store_load_more = 0x17
wire_type store_delta = 0x18
wire_type write_committed = 0x19
wire_type write_error = 0x1a
wire_type presence_set_namespace = 0x20
wire_type presence_set = 0x21
wire_type presence_set_shared = 0x22
wire_type presence_subscribe = 0x23
wire_type presence_unsubscribe = 0x24
wire_type presence_subscribe_shared = 0x25
wire_type presence_unsubscribe_shared = 0x26
wire_type presence_remove = 0x27
wire_type presence_broadcast = 0x28
wire_type shared_state_broadcast = 0x29
wire_type action_call = 0x30
wire_type action_forward = 0x31
wire_type action_reply = 0x32
wire_type action_register = 0x33

-- The keys of `OUTBOUND_WIRE_TYPES`.
unfoldable pub is_outbound : MessageType → Bool
is_outbound ok_type = false
is_outbound error_type = false
is_outbound schema_sync_type = false
is_outbound server_disconnect_type = false
is_outbound store_delta = false
is_outbound write_committed = false
is_outbound write_error = false
is_outbound presence_broadcast = false
is_outbound shared_state_broadcast = false
is_outbound action_forward = false
is_outbound _ = true

-- `INBOUND_WIRE_TYPES`, in the order of the source.
abbrev pub inbound_types : List MessageType
inbound_types =
    ok_type ∷ error_type ∷ server_disconnect_type ∷ schema_sync_type ∷ store_delta ∷ write_committed
    ∷ write_error ∷ presence_broadcast ∷ shared_state_broadcast ∷ action_forward ∷ []

unfoldable pub inbound_type : ℕ → Option MessageType
unfolding wire_type find
inbound_type id = find id (map (λ t. (wire_type t, t)) inbound_types)

-- The prefix of a type's name: "Store", "Presence", "Action", or another one.
pub data Family : Type 0 where
  store_family presence_family action_family other_family : Family

unfoldable pub family_of : MessageType → Family
family_of store_set_namespace = store_family
family_of store_set = store_family
family_of store_remove = store_family
family_of store_batch = store_family
family_of store_query = store_family
family_of store_subscribe = store_family
family_of store_unsubscribe = store_family
family_of store_load_more = store_family
family_of store_delta = store_family
family_of presence_set_namespace = presence_family
family_of presence_set = presence_family
family_of presence_set_shared = presence_family
family_of presence_subscribe = presence_family
family_of presence_unsubscribe = presence_family
family_of presence_subscribe_shared = presence_family
family_of presence_unsubscribe_shared = presence_family
family_of presence_remove = presence_family
family_of presence_broadcast = presence_family
family_of action_call = action_family
family_of action_forward = action_family
family_of action_reply = action_family
family_of action_register = action_family
family_of _ = other_family

-- `PendingRequestContext`
pub record Context : Type 0 where
  pub kind : MessageType
  pub response_table_index : Option ℤ
  pub action_name : Option Text

-- `String(n)` of a natural number below base ^ fuel.
abbrev pub decimal_digits : (fuel : ℕ) → ℕ → Text → Text
decimal_digits zero n found = found
decimal_digits (suc fuel) n found =
    let rest = decimal_digits fuel (n / 10) ((b'0' + n % 10) ∷ found) in
    if ltb n 10 then (b'0' + n) ∷ found else rest

unfoldable pub decimal : ℕ → Text
decimal n = decimal_digits (suc n) n []
