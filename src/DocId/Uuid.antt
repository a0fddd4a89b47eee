-- ===== src/DocId/Uuid.antt =====
-- UUIDv7 ids: `isCanonicalUUIDv7`, `parseUuidBytes`, `formatUuidBytes`, `encodeUuidV7DocId` and the
-- decoding of `decodeUuidV7DocId` of sdk/typescript/src/doc_id.ts.
use zyncbase.Prelude.{
  ℕ, zero, suc, ◌+◌, ◌-◌, ◌*◌, ◌/◌, ◌%◌, ◌^◌, Bool, true, false, ◌&&◌, ◌||◌, List, [], ◌∷◌, ltb,
  leb, ◌==◌, if◌then◌else◌, get_or,
}
use zyncbase.Radix.{of_digits, Digit}
use zyncbase.DocId.Short.{Bytes, big_int_to_bytes}
use zyncbase.Prelude.Text.{Text}

-- The character classes of `UUID_V7_REGEX`.
pub data Class : Type 0 where
  hex dash seven variant : Class

abbrev pub is_hex : ℕ → Bool
is_hex c = leb b'0' c && leb c b'9' || leb b'a' c && leb c b'f'

abbrev pub fits : Class → ℕ → Bool
fits hex c = is_hex c
fits dash c = c == b'-'
fits seven c = c == b'7'
fits variant c = c == b'8' || c == b'9' || c == b'a' || c == b'b'

abbrev pub matches : List Class → Text → Bool
matches [] [] = true
matches (k ∷ ks) (c ∷ s) = fits k c && matches ks s
matches _ _ = false

abbrev pub hexes : ℕ → List Class → List Class
hexes zero ks = ks
hexes (suc n) ks = hex ∷ hexes n ks

-- `UUID_V7_REGEX`
abbrev pub uuid_v7 : List Class
uuid_v7 =
    hexes 8
      (dash ∷ hexes 4 (dash ∷ seven ∷ hexes 3 (dash ∷ variant ∷ hexes 3 (dash ∷ hexes 12 []))))

unfoldable pub is_canonical : Text → Bool
is_canonical id = matches uuid_v7 id

-- `uuid.replaceAll("-", "")`
unfoldable pub strip_dashes : Text → Text
strip_dashes [] = []
strip_dashes (c ∷ s) = if c == b'-' then strip_dashes s else c ∷ strip_dashes s

abbrev pub hex_value : ℕ → ℕ
hex_value c = if leb c b'9' then c - b'0' else c - b'a' + 10

-- `Number.parseInt(hex.slice(i * 2, i * 2 + 2), 16)` for each byte of the array.
unfoldable pub parse_hex : ℕ → Text → Bytes
parse_hex (suc n) (c ∷ d ∷ s) = (hex_value c * 16 + hex_value d) ∷ parse_hex n s
parse_hex _ _ = []

-- `parseUuidBytes`, for a canonical id.
unfoldable pub parse_uuid_bytes : Text → Bytes
unfolding parse_hex strip_dashes
parse_uuid_bytes uuid = parse_hex 16 (strip_dashes uuid)

abbrev pub hex_char : ℕ → ℕ
hex_char d = if ltb d 10 then b'0' + d else b'a' + (d - 10)

-- `HEX2[b]`
abbrev pub hex2 : ℕ → Text → Text
hex2 b s = hex_char (b / 16) ∷ hex_char (b % 16) ∷ s

-- `formatUuidBytes`, for an array of 16 bytes.
unfoldable pub format_uuid_bytes : Bytes → Text
format_uuid_bytes
      (b0 ∷ b1 ∷ b2 ∷ b3 ∷ b4 ∷ b5 ∷ b6 ∷ b7 ∷ b8 ∷ b9 ∷ b10 ∷ b11 ∷ b12 ∷ b13 ∷ b14 ∷ b15 ∷ []) =
    hex2 b0 (
      hex2 b1 (
        hex2 b2 (
          hex2 b3 (
            b'-'
            ∷ hex2 b4 (
                hex2 b5 (
                  b'-'
                  ∷ hex2 b6 (
                      hex2 b7 (
                        b'-'
                        ∷ hex2 b8 (
                            hex2 b9 (
                              b'-'
                              ∷ hex2 b10 (
                                  hex2 b11 (hex2 b12 (hex2 b13 (hex2 b14 (hex2 b15 [])))))))))))))))
format_uuid_bytes _ = []

-- The steps `payload = (payload << k) | bits` of `encodeUuidV7DocId`, as digits of radix 2 ^ k.
unfoldable pub payload_digits : Bytes → List Digit
payload_digits
      (b0 ∷ b1 ∷ b2 ∷ b3 ∷ b4 ∷ b5 ∷ b6 ∷ b7 ∷ b8 ∷ b9 ∷ b10 ∷ b11 ∷ b12 ∷ b13 ∷ b14 ∷ b15 ∷ []) =
    (256, b0)
    ∷ (256, b1)
    ∷ (256, b2)
    ∷ (256, b3)
    ∷ (256, b4)
    ∷ (256, b5)
    ∷ (16, b6 % 16)
    ∷ (256, b7)
    ∷ (64, b8 % 64)
    ∷ (256, b9)
    ∷ (256, b10)
    ∷ (256, b11)
    ∷ (256, b12)
    ∷ (256, b13)
    ∷ (256, b14)
    ∷ (256, b15)
    ∷ []
payload_digits _ = []

abbrev pub uuid_family_tag : ℕ
uuid_family_tag = 2 ^ 127

-- `encodeUuidV7DocId`
unfoldable pub encode_uuid : Text → Bytes
unfolding parse_uuid_bytes payload_digits of_digits big_int_to_bytes
encode_uuid uuid =
    big_int_to_bytes (uuid_family_tag + of_digits 0 (payload_digits (parse_uuid_bytes uuid)))

-- `(packed[0] & 0x7c) === 0`
unfoldable pub reserved_bits_clear : Bytes → Bool
reserved_bits_clear packed = get_or packed 0 0 / 4 % 32 == 0

-- The bytes of the UUID that `decodeUuidV7DocId` restores.
unfoldable pub restore_bytes : Bytes → Bytes
restore_bytes
      (p0 ∷ p1 ∷ p2 ∷ p3 ∷ p4 ∷ p5 ∷ p6 ∷ p7 ∷ p8 ∷ p9 ∷ p10 ∷ p11 ∷ p12 ∷ p13 ∷ p14 ∷ p15 ∷ []) =
    (p0 % 4 * 64 + p1 / 4)
    ∷ (p1 % 4 * 64 + p2 / 4)
    ∷ (p2 % 4 * 64 + p3 / 4)
    ∷ (p3 % 4 * 64 + p4 / 4)
    ∷ (p4 % 4 * 64 + p5 / 4)
    ∷ (p5 % 4 * 64 + p6 / 4)
    ∷ (112 + (p6 % 4 * 4 + p7 / 64))
    ∷ (p7 % 64 * 4 + p8 / 64)
    ∷ (128 + p8 % 64)
    ∷ p9
    ∷ p10
    ∷ p11
    ∷ p12
    ∷ p13
    ∷ p14
    ∷ p15
    ∷ []
restore_bytes _ = []

-- `decodeUuidV7DocId` behind its check and its cache.
unfoldable pub decode_uuid : Bytes → Text
unfolding restore_bytes format_uuid_bytes
decode_uuid packed = format_uuid_bytes (restore_bytes packed)
