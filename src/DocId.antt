-- ===== src/DocId.antt =====
-- sdk/typescript/src/doc_id.ts: document ids, packed into 16 bytes. A short id is a number of 24
-- digits in base 39, a UUIDv7 the 122 bits that its version and variant leave free.
-- `x | y` of numbers with no bit in common is `x + y`, `x << k` is `x * 2 ^ k`, `x & (2 ^ k - 1)` is
-- `x % 2 ^ k`.
pub mod Short
pub mod ShortLaws
pub mod Caching
pub mod RoundTrip
pub mod UuidLaws
pub mod UuidText
pub mod Uuid
use zyncbase.Prelude.{
  ◌++◌, ℕ, ◌+◌, ◌*◌, ◌%◌, false, Option, none, some, leb, ◌==◌, if◌then◌else◌, length, get_or,
}
use zyncbase.Prelude.Result.{Result, ok, err}
use Prim.Native.Nat.{bit_xor}
use zyncbase.Errors.{
  ErrorCode, ZyncBaseError, new_error, invalid_path, invalid_message, client, validation,
}
use zyncbase.Radix.{of_digits, in_base}
use zyncbase.DocId.Short.{encode_short, decode_short, is_valid_short, Bytes}
use zyncbase.DocId.Uuid.{encode_uuid, decode_uuid, is_canonical, reserved_bits_clear}
use zyncbase.Prelude.Text.{Text, text, text_eq}

-- `invalidDocIdError`
abbrev pub invalid_doc_id_error : Text → ErrorCode → ZyncBaseError
invalid_doc_id_error message code =
    new_error message code (elim code [ invalid_path ↦ client | _ ↦ validation ]) false

-- `packDocId`
unfoldable pub pack_doc_id : Text → ErrorCode → Result ZyncBaseError Bytes
unfolding is_canonical encode_uuid is_valid_short encode_short new_error
pack_doc_id id code =
    if is_canonical id
    then ok (encode_uuid id)
    else if is_valid_short id
    then ok (encode_short id)
    else err (
        invalid_doc_id_error
          (text "Invalid document ID \""
            ++ (id ++ text "\". Expected canonical UUIDv7 or [a-z0-9_-]{1,24}."))
          code)

-- An entry of a decode cache.
pub record Entry : Type 0 where
  pub packed : Bytes
  pub id : Text

-- The module's decode caches: arrays of 4096 entries, as functions of the index.
pub record Caches : Type 0 where
  pub hot : ℕ → Option Entry
  pub primary : ℕ → Option Entry
  pub secondary : ℕ → Option Entry

abbrev pub cache_limit : ℕ
cache_limit = 4096

abbrev pub store_at : (ℕ → Option Entry) → ℕ → Entry → ℕ → Option Entry
store_at cache i e j = if i == j then some e else cache j

-- `lookupCachedUuid`, and the same loop of `unpackDocId`: the id of the entry if its bytes are those.
unfoldable pub lookup_cached : Bytes → Option Entry → Option Text
lookup_cached packed none = none
lookup_cached packed (some e) = if text_eq packed e.packed then some e.id else none

-- `bytes[i]`, for an index that is in range.
abbrev pub byte_at : Bytes → ℕ → ℕ
byte_at bs i = get_or bs i 0

abbrev pub uuid_cache_index : Bytes → ℕ
uuid_cache_index p = (byte_at p 14 * 256 + byte_at p 15) % cache_limit

abbrev pub short_cache_index : Bytes → ℕ
short_cache_index p =
    bit_xor (bit_xor (byte_at p 0 * 256 + byte_at p 1) (byte_at p 6 * 256 + byte_at p 7))
      (byte_at p 12 * 256 + byte_at p 13)
    % cache_limit

abbrev pub Decoded : Type 0
Decoded = Result ZyncBaseError Text × Caches

-- A miss in both ways of the cache: decode, move the primary entry to the secondary way.
unfoldable pub remember_uuid : Caches → Bytes → Decoded
unfolding decode_uuid
remember_uuid c packed =
    let i = uuid_cache_index packed in
    let id = decode_uuid packed in
    (
      ok id,
      record c {
        secondary = (λ j. if i == j then c.primary i else c.secondary j);
        primary = store_at c.primary i (record { packed = packed; id = id });
      },
    )

-- `decodeUuidV7DocId`
unfoldable pub decode_uuid_cached : Caches → Bytes → Decoded
unfolding remember_uuid lookup_cached reserved_bits_clear new_error
decode_uuid_cached c packed =
    if reserved_bits_clear packed
    then elim (lookup_cached packed (c.primary (uuid_cache_index packed))) [
      | some id ↦ (ok id, c)
      | none ↦ elim (lookup_cached packed (c.secondary (uuid_cache_index packed))) [
        | some id ↦ (ok id, c)
        | none ↦ remember_uuid c packed
      ]
    ]
    else (err (invalid_doc_id_error (text "Invalid packed UUIDv7 document ID") invalid_message), c)

-- What follows a miss of the hot cache in `unpackDocId`.
unfoldable pub remember_short : Caches → Bytes → Decoded
unfolding decode_short
remember_short c packed = elim (decode_short (of_digits 0 (in_base 256 packed))) [
  | err message ↦ (err (invalid_doc_id_error message invalid_message), c)
  | ok id ↦ (
    ok id,
    record c {
      hot = store_at c.hot (short_cache_index packed) (record { packed = packed; id = id });
    },
  )
]

-- `unpackDocId`; the message of the length error does not hold the length.
unfoldable pub unpack_doc_id : Caches → Bytes → Decoded
unfolding decode_uuid_cached remember_short
unpack_doc_id c packed =
    if length packed == 16
    then if leb 128 (byte_at packed 0)
      then decode_uuid_cached c packed
      else elim (lookup_cached packed (c.hot (short_cache_index packed))) [
        | some id ↦ (ok id, c)
        | none ↦ remember_short c packed
      ]
    else (
      err (
          invalid_doc_id_error (text "Invalid document ID byte length; expected 16.")
            invalid_message),
      c,
    )

-- `isCanonicalUUIDv7(id) ? 1 : isValidShortDocId(id) ? 0 : 2`
unfoldable pub family : Text → ℕ
unfolding is_canonical is_valid_short
family id = if is_canonical id then 1 else if is_valid_short id then 0 else 2
