-- ===== src/StoreWire.antt =====
-- sdk/typescript/src/store_wire.ts: the calls of `StoreImpl` become requests. A request is its type
-- and its other properties; the path it is about stands beside it.
pub mod Writes
pub mod Nesting
pub mod Where
pub mod Sort
pub mod SortLaws
pub mod SortViews
pub mod Asked
pub mod Operators
pub mod Conditions
pub mod WhereLaws
pub mod WriteLaws
pub mod BatchLaws
pub mod Queries
use zyncbase.Prelude.{false, Option, none, some, List, [], ◌∷◌, ◌==◌, if◌then◌else◌}
use zyncbase.Prelude.Text.{Text, text}
use zyncbase.Prelude.Result.{Result, ok, err}
use zyncbase.Json.{Value, str, arr, Items, nil, cons, Fields, end, field}
use zyncbase.Errors.{ZyncBaseError, new_error, ErrorCode, client, Thrown, zync}
use zyncbase.Wire.{MessageType}

pub record StoreCommand : Type 0 where
  pub segments : List Text
  pub message_type : MessageType
  pub message : Fields

pub data Confirm : Type 0 where
  accepted committed : Confirm

-- A list of texts as a value.
abbrev pub text_items : List Text → Items
text_items [] = nil
text_items (s ∷ ss) = cons (str s) (text_items ss)

abbrev pub path_of : List Text → Value
path_of ss = arr (text_items ss)

abbrev pub client_error : Text → ErrorCode → ZyncBaseError
client_error message code = new_error message code client false

-- A `ZyncBaseError` as what a `catch` receives.
abbrev pub thrown : {A : Type 0} → Result ZyncBaseError A → Result Thrown A
thrown (ok a) = ok a
thrown (err e) = err (zync e)

-- `generateUUIDv7().replace(/-/g, "")`
unfoldable pub write_id : Text → Text
write_id [] = []
write_id (c ∷ s) = let rest = write_id s in if c == b'-' then rest else c ∷ rest

-- `confirm` and `writeId` of a message, with the generated UUID.
unfoldable pub confirm_fields : Option Confirm → Text → Fields
unfolding write_id
confirm_fields none uuid = end
confirm_fields (some accepted) uuid = field (text "confirm") (str (text "accepted")) end
confirm_fields (some committed) uuid =
    field (text "confirm") (str (text "committed"))
      (field (text "writeId") (str (write_id uuid)) end)
