-- ===== src/Wire/Decode.antt =====
-- The decoders of `ConnectionWireCodec`: pushes are arrays, which are checked element by element,
-- and whatever does not fit is dropped. Other messages keep their properties.
use zyncbase.DocId.Short.{Bytes}
use zyncbase.Errors.{Thrown}
use zyncbase.Json.{
  Value, null, bool, num, str, bytes, arr, obj, Items, nil, cons, Fields, get_prop, items,
}
use zyncbase.Prelude.Int.{pos}
use zyncbase.Prelude.Result.{Result, ok, err}
use zyncbase.Presence.Broadcast.{BroadcastEntry, join, update, leave, decode_presence_user_id}
use zyncbase.Schema.{SchemaDictionary}
use zyncbase.Schema.Paths.{document, packed, plain, decode_path, DocRef}
use zyncbase.Schema.Records.{decode_record}
use zyncbase.Schema.Sparse.{decode_presence_user_value, decode_presence_shared_value}
use zyncbase.Subscriptions.Tracker.{StoreDelta}
use zyncbase.Subscriptions.Views.{set_op, remove_op}
use zyncbase.Wire.{
  MessageType, store_delta, presence_broadcast, shared_state_broadcast, action_forward, wire_type,
  inbound_type, decimal,
}
use zyncbase.Prelude.{
  ℕ, Bool, true, false, ◌&&◌, Option, none, some, List, [], ◌∷◌, leb, ◌==◌, if◌then◌else◌, is_some,
  length,
}
use zyncbase.Prelude.Text.{Text, text}

abbrev pub max_safe_integer : ℕ
max_safe_integer = 9007199254740991

-- `isNonNegativeSafeInteger`, with the number.
abbrev pub safe_index : Value → Option ℕ
safe_index (num (pos n)) = if leb n max_safe_integer then some n else none
safe_index v = none

-- `isWireDocId`, with the id as `decodePath` reads it.
unfoldable pub wire_doc_id : Value → Option DocRef
unfolding decimal
wire_doc_id (str id) = some (plain id)
wire_doc_id (bytes bs) = some (packed bs)
wire_doc_id (num n) = elim (safe_index (num n)) [ none ↦ none | some k ↦ some (plain (decimal k)) ]
wire_doc_id v = none

-- `isSparseFieldArray`, with the elements.
abbrev pub has_indexes : List Value → Bool
has_indexes [] = true
has_indexes (i ∷ []) = false
has_indexes (i ∷ v ∷ vs) = is_some (safe_index i) && has_indexes vs

abbrev pub sparse_field_array : Value → Option (List Value)
sparse_field_array (arr vs) = if has_indexes (items vs) then some (items vs) else none
sparse_field_array v = none

-- `catch { return null; }`
abbrev pub caught : {A : Type 0} → Result Thrown A → Option A
caught (ok a) = some a
caught (err t) = none

-- What is not there ends a decoder.
infixl 5 ◌>>=◌
abbrev pub ◌>>=◌ : {A B : Type 0} → Option A → (A → Option B) → Option B
none >>= f = none
some a >>= f = f a

-- The messages that the client understands.
pub data InboundMessage : Type 0 where
  delta_message : StoreDelta → InboundMessage
  presence_message : ℕ → List BroadcastEntry → InboundMessage
  shared_message : ℕ → List Fields → InboundMessage
  forward_message :
      (exec_id : ℕ)
      → (user_id : Text) → (action_id : ℕ) → (params : List Value) → (claims : Fields)
      → InboundMessage
  named_message : MessageType → Fields → InboundMessage

abbrev pub is_push : MessageType → Bool
is_push store_delta = true
is_push presence_broadcast = true
is_push shared_state_broadcast = true
is_push action_forward = true
is_push _ = false

module _ (d : SchemaDictionary) where
  -- The delta that removes a document.
  unfoldable pub decode_removal : ℕ → ℕ → Value → Option StoreDelta
  unfolding wire_doc_id decode_path
  decode_removal sub_id table_index id = do
    ref ← wire_doc_id id
    path ← caught (decode_path d (document (pos table_index) ref))
    some (record { sub_id = sub_id; ops = remove_op path ∷ [] })

  -- `value.id`, where it is a text.
  abbrev pub text_prop : Text → Fields → Option Text
  text_prop key fs = elim (get_prop key fs) [
    | some (str s) ↦ some s
    | some null ↦ none
    | some (bool b) ↦ none
    | some (num n) ↦ none
    | some (bytes bs) ↦ none
    | some (arr vs) ↦ none
    | some (obj gs) ↦ none
    | none ↦ none
  ]

  -- The delta that sets a document.
  unfoldable pub decode_write : ℕ → ℕ → Value → Option StoreDelta
  unfolding get_prop decode_record decode_path
  decode_write sub_id table_index (arr row) = do
    value ← caught (decode_record d table_index (items row))
    id ← text_prop (text "id") value
    path ← caught (decode_path d (document (pos table_index) (plain id)))
    some (record { sub_id = sub_id; ops = set_op path (obj value) ∷ [] })
  decode_write sub_id table_index v = none

  -- `decodeStoreDelta`, `hasValidStoreDeltaHeader` included, behind the type of the message. What is
  -- negative is dropped, so only indexes are let through.
  unfoldable pub decode_store_delta : List Value → Option StoreDelta
  unfolding decode_removal decode_write
  decode_store_delta (sub_id ∷ kind ∷ table_index ∷ last ∷ []) = do
    sub ← safe_index sub_id
    ti ← safe_index table_index
    k ← safe_index kind
    if k == 1 then decode_removal sub ti last else if k == 0 then decode_write sub ti last else none
  decode_store_delta _ = none

  abbrev pub entry_data : (List Value → Result Thrown Fields) → Value → Option Fields
  entry_data decode v = do vs ← sparse_field_array v; caught (decode vs)

  -- The events of `PRESENCE_EVENT_NAMES`, each with the elements that `PRESENCE_EVENT_ARITIES` counts.
  unfoldable pub decode_event : Bytes → ℕ → List Value → Option BroadcastEntry
  unfolding decode_presence_user_value
  decode_event id tag (v ∷ at ∷ []) =
      if tag == 0
      then (do
        data_fields ← entry_data (decode_presence_user_value d) v
        joined ← safe_index at
        some (record {
          user_id = id;
          event = join;
          fields = some data_fields;
          joined_at = some joined;
        }))
      else none
  decode_event id tag (v ∷ []) =
      if tag == 1
      then (do
        data_fields ← entry_data (decode_presence_user_value d) v
        some (record { user_id = id; event = update; fields = some data_fields; joined_at = none }))
      else none
  decode_event id tag [] =
      if tag == 2
      then some (record { user_id = id; event = leave; fields = none; joined_at = none })
      else none
  decode_event id tag _ = none

  -- `decodePresenceEntry`; the user id has 16 bytes.
  unfoldable pub decode_presence_entry : Value → Option BroadcastEntry
  unfolding decode_event
  decode_presence_entry (arr (cons (bytes id) (cons tag rest))) = do
    k ← safe_index tag
    if length id == 16 then decode_event id k (items rest) else none
  decode_presence_entry _ = none

  -- A list of elements that all decode.
  unfoldable pub decode_all : {A : Type 0} → (Value → Option A) → Items → Option (List A)
  decode_all f nil = some []
  decode_all f (cons v vs) = do a ← f v; rest ← decode_all f vs; some (a ∷ rest)

  -- `decodePresenceBroadcast`, behind the type of the message.
  unfoldable pub decode_presence_broadcast : List Value → Option InboundMessage
  unfolding decode_all decode_presence_entry
  decode_presence_broadcast (sub_id ∷ arr users ∷ []) = do
    sub ← safe_index sub_id
    entries ← decode_all decode_presence_entry users
    some (presence_message sub entries)
  decode_presence_broadcast _ = none

  -- `decodeSharedStateBroadcast`
  unfoldable pub decode_shared_state_broadcast : List Value → Option InboundMessage
  unfolding decode_all decode_presence_shared_value
  decode_shared_state_broadcast (sub_id ∷ arr patches ∷ []) = do
    sub ← safe_index sub_id
    patches' ← decode_all (entry_data (decode_presence_shared_value d)) patches
    some (shared_message sub patches')
  decode_shared_state_broadcast _ = none

  -- `decodeActionForward`
  unfoldable pub decode_action_forward : List Value → Option InboundMessage
  unfolding decode_presence_user_id
  decode_action_forward (exec_id ∷ bytes id ∷ action_id ∷ params ∷ obj claims ∷ []) = do
    exec ← safe_index exec_id
    action ← safe_index action_id
    vs ← sparse_field_array params
    user ← caught (decode_presence_user_id id)
    some (forward_message exec user action vs claims)
  decode_action_forward _ = none

  -- The pushes of `decodeMessage`.
  unfoldable pub decode_push : ℕ → List Value → Option InboundMessage
  unfolding decode_store_delta decode_presence_broadcast decode_shared_state_broadcast
      decode_action_forward wire_type
  decode_push kind rest =
      if kind == wire_type store_delta
      then (do delta ← decode_store_delta rest; some (delta_message delta))
      else if kind == wire_type presence_broadcast
      then decode_presence_broadcast rest
      else if kind == wire_type shared_state_broadcast
      then decode_shared_state_broadcast rest
      else if kind == wire_type action_forward
      then decode_action_forward rest
      else none

  -- The messages of `decodeMessage` that are no pushes; their type is the name from then on.
  unfoldable pub decode_named : Value → Fields → Option InboundMessage
  unfolding inbound_type
  decode_named (num (pos n)) fs = do
    kind ← inbound_type n
    if is_push kind then none else some (named_message kind fs)
  decode_named _ fs = none

  -- `decodeMessage`
  unfoldable pub decode_message : Value → Option InboundMessage
  unfolding get_prop decode_push decode_named
  decode_message (arr (cons (num (pos kind)) rest)) = decode_push kind (items rest)
  decode_message (obj fs) = do kind ← get_prop (text "type") fs; decode_named kind fs
  decode_message _ = none

  -- `decodeMulti`: the messages of a frame, for what MessagePack unpacks of it before it fails.
  unfoldable pub decode_multi : List Value → List InboundMessage
  unfolding decode_message
  decode_multi [] = []
  decode_multi (v ∷ vs) = elim (decode_message v) [
    | none ↦ decode_multi vs
    | some m ↦ m ∷ decode_multi vs
  ]
