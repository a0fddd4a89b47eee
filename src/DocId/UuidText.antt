-- ===== src/DocId/UuidText.antt =====
-- `parseUuidBytes` and `formatUuidBytes` of doc_id.ts on canonical ids.
use mathlib.Core.Bool.{and-eq-true_iff}
use mathlib.Core.Path.{ap₂}
use zyncbase.Prelude.{
  ℕ, zero, suc, ◌+◌, ◌*◌, ◌/◌, ◌%◌, ◌<◌, ◌≡◌, refl, ◌≢◌, true, List, [], ◌∷◌, arith, ◌==◌, length,
  sym, ap, ◌∙◌, false, ◌&&◌, ==_iff, get_or,
}
use zyncbase.Radix.{AllBelow}
use zyncbase.DocId.Short.{Bytes}
use zyncbase.DocId.Uuid.{
  Class, hex, dash, seven, variant, is_hex, fits, matches, is_canonical, strip_dashes, hex_value,
  parse_hex, parse_uuid_bytes, hex_char, hex2, format_uuid_bytes,
}
use zyncbase.Prelude.Text.{Text}

-- The text as slots: two hexadecimal digits, which spell a byte, or a dash.
pub data Slot : Type 0 where
  pair : Class → Slot
  gap : Slot

abbrev classes : List Slot → List Class
classes [] = []
classes (pair k ∷ sl) = k ∷ hex ∷ classes sl
classes (gap ∷ sl) = dash ∷ classes sl

abbrev pub count_pairs : List Slot → ℕ
count_pairs [] = 0
count_pairs (pair k ∷ sl) = suc (count_pairs sl)
count_pairs (gap ∷ sl) = count_pairs sl

abbrev pairs : ℕ → List Slot → List Slot
pairs zero sl = sl
pairs (suc n) sl = pair hex ∷ pairs n sl

abbrev pub uuid_slots : List Slot
uuid_slots =
    pairs 4
      (gap ∷ pairs 2 (gap ∷ pair seven ∷ pairs 1 (gap ∷ pair variant ∷ pairs 1 (gap ∷ pairs 6 []))))

abbrev pub spell_slots : List Slot → Bytes → Text
spell_slots [] bs = []
spell_slots (gap ∷ sl) bs = b'-' ∷ spell_slots sl bs
spell_slots (pair k ∷ sl) [] = []
spell_slots (pair k ∷ sl) (b ∷ bs) = hex2 b (spell_slots sl bs)

-- The first digit of each byte is of its slot's class.
abbrev SlotsFit : List Slot → Bytes → Type 0
SlotsFit [] bs = Unit {0}
SlotsFit (gap ∷ sl) bs = SlotsFit sl bs
SlotsFit (pair k ∷ sl) [] = ⊥
SlotsFit (pair k ∷ sl) (b ∷ bs) = (fits k (hex_char (b / 16)) ≡ true) × SlotsFit sl bs

abbrev ProperSlots : List Slot → Type 0
ProperSlots [] = Unit {0}
ProperSlots (gap ∷ sl) = ProperSlots sl
ProperSlots (pair k ∷ sl) = (k ≢ dash) × ProperSlots sl

fits-is_hex : (k : Class) (c : ℕ) → k ≢ dash → fits k c ≡ true → is_hex c ≡ true
fits-is_hex hex c ne h = h
fits-is_hex dash c ne h = absurd (ne refl)
fits-is_hex seven c ne h = ground arith
fits-is_hex variant c ne h = ground arith

module _ (c d : ℕ) (hc : is_hex c ≡ true) (hd : is_hex d ≡ true) where
  pair-lt : hex_value c * 16 + hex_value d < 256
  pair-lt = ground arith

  pair-high : hex_char ((hex_value c * 16 + hex_value d) / 16) ≡ c
  pair-high = ground arith

  pair-low : hex_char ((hex_value c * 16 + hex_value d) % 16) ≡ d
  pair-low = ground arith

strip-hex : (c : ℕ) (s : Text) → is_hex c ≡ true → strip_dashes (c ∷ s) ≡ c ∷ strip_dashes s
unfolding strip_dashes
strip-hex c s h = ground arith

strip-dash : (c : ℕ) (s : Text) → (c == b'-') ≡ true → strip_dashes (c ∷ s) ≡ strip_dashes s
unfolding strip_dashes
strip-dash c s h = ground arith

record Parsed (sl : List Slot) (s : Text) (bs : Bytes) : Type 0 where
  spelled : spell_slots sl bs ≡ s
  below : AllBelow 256 bs
  slots : SlotsFit sl bs
  len : length bs ≡ count_pairs sl

no_second : (k : Class) (c : ℕ) → fits k c && false ≡ true → ⊥
no_second k c h = ground arith

parsed :
    (sl : List Slot) (s : Text)
    → ProperSlots sl
    → matches (classes sl) s ≡ true
    → Parsed sl s (parse_hex (count_pairs sl) (strip_dashes s))
unfolding parse_hex
parsed [] [] p h = record { spelled = refl; below = tt; slots = tt; len = refl }
parsed [] (c ∷ s) p h = cc
parsed (gap ∷ sl) [] p h = cc
parsed (gap ∷ sl) (c ∷ s) p h =
    let (here, later) = (and-eq-true_iff _ _).0 h in
    let ih = parsed sl s p later in
    rw (strip-dash c s here) (record {
      spelled = ap₂ ◌∷◌ (sym ((==_iff c b'-').0 here)) ih.spelled;
      below = ih.below;
      slots = ih.slots;
      len = ih.len;
    })
parsed (pair k ∷ sl) [] p h = cc
parsed (pair k ∷ sl) (c ∷ []) (ne, p) h = absurd (no_second k c h)
parsed (pair k ∷ sl) (c ∷ d ∷ s) (ne, p) h =
    let (first, rest) = (and-eq-true_iff _ _).0 h in
    let (second, later) = (and-eq-true_iff _ _).0 rest in
    let hc = fits-is_hex k c ne first in
    let ih = parsed sl s p later in
    rw (strip-hex c (d ∷ s) hc, strip-hex d s second)
      (record {
        spelled = ap₂ ◌∷◌ (pair-high c d hc second) (ap₂ ◌∷◌ (pair-low c d hc second) ih.spelled);
        below = (pair-lt c d hc second, ih.below);
        slots = (rw (pair-high c d hc second) first, ih.slots);
        len = ap suc ih.len;
      })

-- Sixteen bytes with the version and the variant of a UUIDv7.
pub record IsUuidV7 (bs : Bytes) : Type 0 where
  pub below : AllBelow 256 bs
  pub len : length bs ≡ 16
  pub version : get_or bs 6 0 / 16 ≡ 7
  pub variant_bits : get_or bs 8 0 / 64 ≡ 2

pub format_slots : (bs : Bytes) → length bs ≡ 16 → format_uuid_bytes bs ≡ spell_slots uuid_slots bs
unfolding format_uuid_bytes
format_slots
      (b0 ∷ b1 ∷ b2 ∷ b3 ∷ b4 ∷ b5 ∷ b6 ∷ b7 ∷ b8 ∷ b9 ∷ b10 ∷ b11 ∷ b12 ∷ b13 ∷ b14 ∷ b15 ∷ []) h =
    refl
format_slots bs h = absurd (omega arith)

version_of : (b : ℕ) → b < 256 → fits seven (hex_char (b / 16)) ≡ true → b / 16 ≡ 7
version_of b lt h = ground arith

variant_of : (b : ℕ) → b < 256 → fits variant (hex_char (b / 16)) ≡ true → b / 64 ≡ 2
variant_of b lt h = ground arith

uuid_slots-Proper : ProperSlots uuid_slots
uuid_slots-Proper = ground arith

fields_of :
    (bs : Bytes)
    → AllBelow 256 bs
    → SlotsFit uuid_slots bs
    → (get_or bs 6 0 / 16 ≡ 7) × (get_or bs 8 0 / 64 ≡ 2)
fields_of (b0 ∷ b1 ∷ b2 ∷ b3 ∷ b4 ∷ b5 ∷ b6 ∷ b7 ∷ b8 ∷ bs) below slots = (
  version_of b6 (omega arith) slots.1.1.1.1.1.1.0,
  variant_of b8 (omega arith) slots.1.1.1.1.1.1.1.1.0,
)
fields_of bs below slots = ground arith

-- The bytes of a canonical UUIDv7 are sixteen, have its version and variant, and are formatted to it.
pub parse_uuid_bytes_lem :
    (id : Text)
    → is_canonical id ≡ true
    → IsUuidV7 (parse_uuid_bytes id) × (format_uuid_bytes (parse_uuid_bytes id) ≡ id)
unfolding is_canonical parse_uuid_bytes
parse_uuid_bytes_lem id h =
    let p = parsed uuid_slots id uuid_slots-Proper h in
    let (version, variant_bits) = fields_of _ p.below p.slots in
    (
      record { below = p.below; len = p.len; version = version; variant_bits = variant_bits },
      format_slots _ p.len ∙ p.spelled,
    )
