-- ===== src/Tests/Clocks.antt =====
-- Runs of uuid.ts of sdk/typescript/src, and its theorem at a concrete input.
use zyncbase.DocId.Short.{Bytes}
use zyncbase.UuidV7.{new_clock, tick, id_bytes, generate_uuid_v7}
use zyncbase.UuidV7.Order.{prefix, tick-prefix}
use zyncbase.Prelude.{◌<◌, ◌≡◌, refl, [], ◌∷◌, arith}
use zyncbase.Prelude.Text.{text}

abbrev zeros : Bytes
zeros = 0 ∷ 0 ∷ 0 ∷ 0 ∷ 0 ∷ 0 ∷ 0 ∷ 0 ∷ 0 ∷ 0 ∷ 0 ∷ 0 ∷ 0 ∷ 0 ∷ 0 ∷ 0 ∷ []

generate_test :
    (generate_uuid_v7 zeros 258 new_clock).1 ≡ text "00000000-0102-7000-8000-000000000000"
unfolding generate_uuid_v7 new_clock
generate_test = refl

-- The counter has room for 4096 ids of one millisecond.
wrap_test : prefix (id_bytes 258 4096 zeros) ≡ prefix (id_bytes 258 0 zeros)
unfolding id_bytes
wrap_test = refl

tick-prefix_example :
    prefix (id_bytes 258 (tick 258 new_clock).counter zeros)
    < prefix (id_bytes 258 (tick 258 (tick 258 new_clock)).counter zeros)
unfolding tick new_clock
tick-prefix_example =
    tick-prefix new_clock 258 258 zeros zeros (omega arith) (omega arith) (omega arith)
      (omega arith)
