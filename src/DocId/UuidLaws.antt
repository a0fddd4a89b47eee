-- ===== src/DocId/UuidLaws.antt =====
-- The bits of a UUIDv7 in `encodeUuidV7DocId` and `decodeUuidV7DocId` of doc_id.ts.
use zyncbase.Prelude.{ℕ, ◌+◌, ◌*◌, ◌/◌, ◌%◌, ◌≡◌, [], ◌∷◌, arith}
use zyncbase.Radix.{of_digits, in_base, AllBelow}
use zyncbase.DocId.Short.{Bytes}
use zyncbase.DocId.Uuid.{payload_digits, uuid_family_tag, restore_bytes}

-- The packed bytes, spelled out: the bytes of the UUID without the version and the variant, moved down
-- by two bits, below the family tag.
abbrev pub packed_bytes : Bytes → Bytes
packed_bytes
      (b0 ∷ b1 ∷ b2 ∷ b3 ∷ b4 ∷ b5 ∷ b6 ∷ b7 ∷ b8 ∷ b9 ∷ b10 ∷ b11 ∷ b12 ∷ b13 ∷ b14 ∷ b15 ∷ []) =
    (128 + b0 / 64)
    ∷ (b0 % 64 * 4 + b1 / 64)
    ∷ (b1 % 64 * 4 + b2 / 64)
    ∷ (b2 % 64 * 4 + b3 / 64)
    ∷ (b3 % 64 * 4 + b4 / 64)
    ∷ (b4 % 64 * 4 + b5 / 64)
    ∷ (b5 % 64 * 4 + b6 % 16 / 4)
    ∷ (b6 % 4 * 64 + b7 / 4)
    ∷ (b7 % 4 * 64 + b8 % 64)
    ∷ b9
    ∷ b10
    ∷ b11
    ∷ b12
    ∷ b13
    ∷ b14
    ∷ b15
    ∷ []
packed_bytes _ = []

module _ (b0 b1 b2 b3 b4 b5 b6 b7 b8 b9 b10 b11 b12 b13 b14 b15 : ℕ) where
  abbrev pub bs : Bytes
  bs = b0 ∷ b1 ∷ b2 ∷ b3 ∷ b4 ∷ b5 ∷ b6 ∷ b7 ∷ b8 ∷ b9 ∷ b10 ∷ b11 ∷ b12 ∷ b13 ∷ b14 ∷ b15 ∷ []

  pub packed_value :
      AllBelow 256 bs
      → of_digits 0 (in_base 256 (packed_bytes bs))
        ≡ uuid_family_tag + of_digits 0 (payload_digits bs)
  unfolding of_digits payload_digits
  packed_value h = omega arith

  pub packed-AllBelow : AllBelow 256 bs → AllBelow 256 (packed_bytes bs)
  packed-AllBelow h = omega arith

  pub restore-packed :
      AllBelow 256 bs → b6 / 16 ≡ 7 → b8 / 64 ≡ 2 → restore_bytes (packed_bytes bs) ≡ bs
  unfolding restore_bytes
  restore-packed h version variant = ground arith
