-- ===== src/DocId/Caching.antt =====
-- The decode caches of `unpackDocId` in doc_id.ts, and which of their entries are right.
use zyncbase.DocId.{
  byte_at, unpack_doc_id, short_cache_index, ok, reserved_bits_clear, Entry, Caches, store_at,
  lookup_cached, Decoded, uuid_cache_index, remember_uuid, remember_short, decode_uuid_cached,
}
use zyncbase.Prelude.{
  ℕ, ◌≡◌, refl, inl, inr, Option, none, some, arith, ◌==◌, Bool-cases, sym, ap, leb, if◌then◌else◌,
  Option-cases, length,
}
use zyncbase.Radix.{of_digits, in_base}
use zyncbase.Prelude.Result.{Result-cases}
use zyncbase.DocId.Short.{Bytes, decode_short}
use zyncbase.DocId.Uuid.{decode_uuid}
use zyncbase.Prelude.Text.{Text, text_eq_iff}

-- Every entry holds the id that its bytes decode to.
abbrev pub IsShortEntry : Option Entry → Type 0
IsShortEntry none = Unit {0}
IsShortEntry (some e) = decode_short (of_digits 0 (in_base 256 e.packed)) ≡ ok e.id

abbrev pub IsUuidEntry : Option Entry → Type 0
IsUuidEntry none = Unit {0}
IsUuidEntry (some e) = decode_uuid e.packed ≡ e.id

pub record IsValid (c : Caches) : Type 0 where
  pub hot_valid : (i : ℕ) → IsShortEntry (c.hot i)
  pub primary_valid : (i : ℕ) → IsUuidEntry (c.primary i)
  pub secondary_valid : (i : ℕ) → IsUuidEntry (c.secondary i)

abbrev pub no_caches : Caches
no_caches = record { hot = λ i. none; primary = λ i. none; secondary = λ i. none }

pub no_caches-IsValid : IsValid no_caches
no_caches-IsValid = record {
  hot_valid = λ i. tt;
  primary_valid = λ i. tt;
  secondary_valid = λ i. tt;
}

IsEntry-store_at :
    (P : Option Entry → Type 0) (cache : ℕ → Option Entry) (i j : ℕ) (e : Entry)
    → P (some e)
    → P (cache j)
    → P (store_at cache i e j)
IsEntry-store_at P cache i j e new old = elim (Bool-cases (i == j)) [
  | inl same ↦ rw same new
  | inr other ↦ rw other old
]

lookup_uuid :
    (packed : Bytes) (o : Option Entry) (id : Text)
    → IsUuidEntry o
    → lookup_cached packed o ≡ some id
    → decode_uuid packed ≡ id
unfolding lookup_cached
lookup_uuid packed none id v h = cc
lookup_uuid packed (some e) id v h = ground (arith, text_eq_iff packed e.packed)

lookup_short :
    (packed : Bytes) (o : Option Entry) (id : Text)
    → IsShortEntry o
    → lookup_cached packed o ≡ some id
    → decode_short (of_digits 0 (in_base 256 packed)) ≡ ok id
unfolding lookup_cached
lookup_short packed none id v h = cc
lookup_short packed (some e) id v h = ground (arith, text_eq_iff packed e.packed)

-- What `unpackDocId` returns, and what it leaves behind.
abbrev Agrees : Caches → Decoded → Decoded → Type 0
Agrees c d plain = (d.0 ≡ plain.0) × IsValid d.1

module _ (c : Caches) (v : IsValid c) (packed : Bytes) where
  secondary_of : (i j : ℕ) → IsUuidEntry (if i == j then c.primary i else c.secondary j)
  secondary_of i j = elim (Bool-cases (i == j)) [
    | inl same ↦ rw same (v.primary_valid i)
    | inr other ↦ rw other (v.secondary_valid j)
  ]

  remember_uuid-IsValid : IsValid (remember_uuid c packed).1
  unfolding remember_uuid
  remember_uuid-IsValid = record {
    hot_valid = v.hot_valid;
    primary_valid = λ j.
        IsEntry-store_at IsUuidEntry c.primary (uuid_cache_index packed) j _ refl
          (v.primary_valid j);
    secondary_valid = λ j. secondary_of (uuid_cache_index packed) j;
  }

  decode_uuid_cached-Agrees :
      Agrees c (decode_uuid_cached c packed) (decode_uuid_cached no_caches packed)
  unfolding decode_uuid_cached
  decode_uuid_cached-Agrees = elim (Bool-cases (reserved_bits_clear packed)) [
    | inr bad ↦ rw (bad, decode_uuid_cached) (refl, v)
    | inl good ↦ elim (Option-cases (lookup_cached packed (c.primary i))) [
      | inr (id, hit) ↦
          rw (good, hit, decode_uuid_cached)
            (ap ok (sym (lookup_uuid packed (c.primary i) id (v.primary_valid i) hit)), v)
      | inl miss ↦ elim (Option-cases (lookup_cached packed (c.secondary i))) [
        | inr (id, hit) ↦
            rw (good, miss, hit, decode_uuid_cached)
              (ap ok (sym (lookup_uuid packed (c.secondary i) id (v.secondary_valid i) hit)), v)
        | inl again ↦ rw (good, miss, again, decode_uuid_cached) (refl, remember_uuid-IsValid)
      ]
    ]
  ]
    where
      i : ℕ
      i = uuid_cache_index packed

  remember_short-Agrees : Agrees c (remember_short c packed) (remember_short no_caches packed)
  unfolding remember_short
  remember_short-Agrees = elim (Result-cases (decode_short (of_digits 0 (in_base 256 packed)))) [
    | inl (message, bad) ↦ rw (bad, remember_short) (refl, v)
    | inr (id, good) ↦
        rw (good, remember_short)
          (
            refl,
            record {
              hot_valid = λ j. IsEntry-store_at IsShortEntry c.hot _ j _ good (v.hot_valid j);
              primary_valid = v.primary_valid;
              secondary_valid = v.secondary_valid;
            },
          )
  ]

  short_hit :
      (id : Text)
      → decode_short (of_digits 0 (in_base 256 packed)) ≡ ok id
      → ok id ≡ (remember_short no_caches packed).0
  unfolding remember_short
  short_hit id h = rw (h, remember_short)

  hot-Agrees :
      (o : Option Text)
      → lookup_cached packed (c.hot (short_cache_index packed)) ≡ o
      → Agrees c
          (elim o [ some id ↦ (ok id, c) | none ↦ remember_short c packed ])
          (remember_short no_caches packed)
  hot-Agrees none miss = remember_short-Agrees
  hot-Agrees (some id) hit = (short_hit id (lookup_short packed _ id (v.hot_valid _) hit), v)

  unpack-Agrees : Agrees c (unpack_doc_id c packed) (unpack_doc_id no_caches packed)
  unfolding unpack_doc_id
  unpack-Agrees = elim (Bool-cases (length packed == 16)) [
    | inr bad ↦ rw (bad, unpack_doc_id) (refl, v)
    | inl good ↦ elim (Bool-cases (leb 128 (byte_at packed 0))) [
      | inl uuid ↦ rw (good, uuid, unpack_doc_id) decode_uuid_cached-Agrees
      | inr short ↦ rw (good, short, unpack_doc_id) (hot-Agrees _ refl)
    ]
  ]

-- Whatever the caches hold, as long as their entries are right, `unpackDocId` returns what it would
-- return with empty caches, errors included, and leaves right entries behind.
pub unpack_doc_id-cached :
    (c : Caches) (packed : Bytes)
    → IsValid c
    → ((unpack_doc_id c packed).0 ≡ (unpack_doc_id no_caches packed).0)
      × IsValid (unpack_doc_id c packed).1
unpack_doc_id-cached c packed v = unpack-Agrees c v packed
