-- ===== src/StoreWire/Queries.antt =====
-- The reads and subscriptions of store_wire.ts, and the shape of what a read returns.
use zyncbase.StoreWire.{StoreCommand, client_error, thrown}
use zyncbase.StoreWire.Where.{
  filter_message, equals, condition_items, encode_where_clause, item_fields,
}
use zyncbase.StoreWire.Sort.{encode_order_by, order_items, item_count}
use zyncbase.Prelude.{ℕ, Option, none, some, List, [], ◌∷◌, ◌++◌, length, if◌then◌else◌}
use zyncbase.Prelude.Int.{ℤ, pos}
use zyncbase.Prelude.Text.{Text, text, text_eq}
use zyncbase.Prelude.Result.{Result, ok, err, ◌>>=◌}
use zyncbase.Json.{
  Value, null, num, str, bytes, arr, obj, Fields, end, field, get_prop, assign, from_items,
}
use zyncbase.Errors.{Thrown, ZyncBaseError, invalid_path, field_not_found}
use zyncbase.Path.{Address, normalize_path, join}
use zyncbase.Wire.{MessageType, store_query, store_subscribe}
use zyncbase.Wire.Encode.{byte_fields}

pub record QueryOptions : Type 0 where
  pub filter : Option Fields
  pub order_by : Option Value
  pub limit : Option ℤ
  pub after : Option Text

-- The query for one document.
abbrev pub id_message : Text → Text → Fields
id_message collection id =
    field (text "table_index") (str collection)
      (field (text "conditions") (arr (condition_items (equals (text "id") (str id) ∷ []))) end)

-- `buildIdQuery`, for segments that are not empty.
unfoldable pub build_id_query : List Text → Fields
build_id_query (collection ∷ id ∷ ps) = id_message collection id
build_id_query (collection ∷ []) = field (text "table_index") (str collection) end
build_id_query [] = end

-- `buildGet`
unfoldable pub build_get : Address → Result ZyncBaseError StoreCommand
unfolding normalize_path build_id_query
build_get path = do
  ss ← normalize_path path
  ok (record { segments = ss; message_type = store_query; message = build_id_query ss })

unfoldable pub filter_fields : Option Fields → Result Thrown Fields
unfolding encode_where_clause
filter_fields none = ok end
filter_fields (some fs) = do f ← encode_where_clause fs; ok (filter_message f)

unfoldable pub order_fields : Option Value → Result Thrown Fields
unfolding encode_order_by
order_fields none = ok end
order_fields (some v) = do
  es ← thrown (encode_order_by v)
  ok (field (text "orderBy") (arr (order_items es)) end)

abbrev pub limit_fields : Option ℤ → Fields
limit_fields none = end
limit_fields (some n) = field (text "limit") (num n) end

abbrev pub after_fields : Option Text → Fields
after_fields none = end
after_fields (some cursor) = field (text "after") (str cursor) end

-- `encodeQueryOptions`
unfoldable pub encode_query_options : QueryOptions → Result Thrown Fields
unfolding assign
encode_query_options o = do
  conditions ← filter_fields o.filter
  order ← order_fields o.order_by
  ok (assign (assign (assign conditions order) (limit_fields o.limit)) (after_fields o.after))

unfoldable pub query_command : MessageType → Text → Fields → StoreCommand
unfolding assign
query_command kind collection options = record {
  segments = collection ∷ [];
  message_type = kind;
  message = assign (field (text "table_index") (str collection) end) options;
}

-- `buildQuery`
unfoldable pub build_query : Text → Option QueryOptions → Result Thrown StoreCommand
unfolding encode_query_options
build_query collection none = ok (query_command store_query collection end)
build_query collection (some o) = do
  options ← encode_query_options o
  ok (query_command store_query collection options)

-- `buildSubscribe`
unfoldable pub build_subscribe : Text → QueryOptions → Result Thrown StoreCommand
unfolding encode_query_options
build_subscribe collection o = do
  options ← encode_query_options o
  ok (query_command store_subscribe collection options)

unfoldable pub listen_at : List Text → Result ZyncBaseError StoreCommand
listen_at (collection ∷ id ∷ ps) = ok (record {
  segments = collection ∷ id ∷ ps;
  message_type = store_subscribe;
  message = id_message collection id;
})
listen_at ss = err (
    client_error
      (text "store.listen at collection level is not supported. Use store.subscribe() instead.")
      invalid_path)

-- `buildListen`
unfoldable pub build_listen : Address → Result ZyncBaseError StoreCommand
unfolding normalize_path listen_at
build_listen path = normalize_path path >>= listen_at

-- `buildUnsubscribe` and `buildLoadMore`: the properties of the messages.
unfoldable pub build_unsubscribe : ℕ → Fields
build_unsubscribe sub_id = field (text "subId") (num (pos sub_id)) end

unfoldable pub build_load_more : ℕ → Text → Fields
build_load_more sub_id cursor =
    field (text "subId") (num (pos sub_id)) (field (text "nextCursor") (str cursor) end)

-- `part in value ? value[part]`; an array has its indexes and its length.
unfoldable pub own_prop : Text → Value → Option Value
unfolding get_prop item_fields item_count byte_fields text_eq
own_prop part (obj fs) = get_prop part fs
own_prop part (arr vs) =
    if text_eq part (text "length")
    then some (num (pos (item_count vs)))
    else get_prop part (item_fields 0 vs)
own_prop part (bytes bs) =
    if text_eq part (text "length")
    then some (num (pos (length bs)))
    else get_prop part (byte_fields 0 bs)
own_prop part v = none

unfoldable pub missing_field : Text → List Text → ZyncBaseError
unfolding join
missing_field part segments =
    client_error
      (text "Field " ++ (part ++ (text " not found at path " ++ join (text ".") segments)))
      field_not_found

-- The loop of `shapeGetResult` through the field segments.
unfoldable pub walk : List Text → List Text → Value → Result ZyncBaseError Value
unfolding own_prop
walk segments [] v = ok v
walk segments (part ∷ parts) v = elim (own_prop part v) [
  | none ↦ err (missing_field part segments)
  | some w ↦ walk segments parts w
]

-- `shapeGetResult`: `none` stands for `undefined`.
unfoldable pub shape_get_result : List Text → List Value → Result ZyncBaseError (Option Value)
unfolding walk
shape_get_result (collection ∷ []) rows = ok (some (arr (from_items rows)))
shape_get_result (collection ∷ id ∷ []) [] = ok (some null)
shape_get_result segments [] = ok none
shape_get_result (collection ∷ id ∷ parts) (row ∷ rows) = do
  v ← walk (collection ∷ id ∷ parts) parts row
  ok (some v)
shape_get_result [] (row ∷ rows) = ok (some row)

-- `shapeQueryResult`: the rows, and the cursor of the next page.
unfoldable pub shape_query_result : Option (List Value) → Option Text → List Value × Option Text
shape_query_result none cursor = ([], cursor)
shape_query_result (some rows) cursor = (rows, cursor)
