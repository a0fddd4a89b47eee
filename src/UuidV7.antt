-- ===== src/UuidV7.antt =====
-- `generateUUIDv7` of sdk/typescript/src/uuid.ts. The random bytes and the clock are inputs; the two
-- variables of the module are the state. Bits that are joined by "or" are disjoint, so they are sums.
pub mod Order
use zyncbase.DocId.Short.{Bytes}
use zyncbase.DocId.Uuid.{format_uuid_bytes}
use zyncbase.Prelude.{ℕ, ◌+◌, ◌/◌, ◌%◌, ◌∷◌, ltb, ◌==◌, if◌then◌else◌, get_or, drop}
use zyncbase.Prelude.Text.{Text}

pub record Clock : Type 0 where
  pub last_msecs : ℕ
  pub counter : ℕ

unfoldable pub new_clock : Clock
new_clock = record { last_msecs = 0; counter = 0 }

-- The update of `counter` and `lastMsecs`.
unfoldable pub tick : ℕ → Clock → Clock
tick msecs c =
    let reset = if ltb msecs c.last_msecs then 0 else c.counter in
    record { last_msecs = msecs; counter = if msecs == c.last_msecs then reset + 1 else 0 }

-- The bytes of an id: six of the time, two of the version and the counter, eight random ones of which
-- the first gets the variant bits.
unfoldable pub id_bytes : ℕ → ℕ → Bytes → Bytes
id_bytes msecs counter random =
    (msecs / 1099511627776 % 256)
    ∷ (msecs / 4294967296 % 256)
    ∷ (msecs / 16777216 % 256)
    ∷ (msecs / 65536 % 256)
    ∷ (msecs / 256 % 256)
    ∷ (msecs % 256)
    ∷ (112 + counter / 256 % 16)
    ∷ (counter % 256)
    ∷ (get_or random 8 0 % 64 + 128)
    ∷ drop 9 random

-- `generateUUIDv7`, for 16 random bytes.
unfoldable pub generate_uuid_v7 : Bytes → ℕ → Clock → Clock × Text
unfolding tick id_bytes format_uuid_bytes
generate_uuid_v7 random msecs c =
    let next = tick msecs c in (next, format_uuid_bytes (id_bytes msecs next.counter random))
