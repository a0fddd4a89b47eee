-- ===== src/UuidV7/Order.antt =====
-- Ids that are generated one after the other.
use zyncbase.DocId.Short.{Bytes}
use zyncbase.Radix.{of_digits, in_base}
use zyncbase.UuidV7.{Clock, tick, id_bytes}
use zyncbase.Prelude.{
  ℕ, ◌+◌, ◌*◌, ◌/◌, ◌%◌, ◌≤◌, ◌<◌, ◌≡◌, arith, take, inl, inr, ◌==◌, ==_iff, Bool-cases,
}

-- The first eight bytes of an id as a number: what orders ids by their time.
abbrev pub prefix : Bytes → ℕ
prefix bs = of_digits 0 (in_base 256 (take 8 bs))

six_bytes :
    (m : ℕ)
    → m < 281474976710656
    → ((((m / 1099511627776 % 256) * 256 + m / 4294967296 % 256) * 256 + m / 16777216 % 256) * 256
            + m / 65536 % 256)
          * 256
          * 256
        + (m / 256 % 256) * 256
        + m % 256
      ≡ m
six_bytes m h = omega arith

prefix-id_bytes :
    (msecs counter : ℕ) (random : Bytes)
    → msecs < 281474976710656
    → counter < 4096
    → prefix (id_bytes msecs counter random) ≡ msecs * 65536 + 28672 + counter
unfolding id_bytes of_digits
prefix-id_bytes msecs counter random small few = omega (arith, six_bytes msecs small)

-- The counter starts at 0 in a new millisecond, and goes up by one in the same one.
counter_step :
    (c : Clock) (after : ℕ)
    → c.last_msecs ≤ after
    → c.counter < 4096
    → c.last_msecs * 65536 + c.counter < after * 65536 + (tick after c).counter
unfolding tick
counter_step c after forward few = elim (Bool-cases (after == c.last_msecs)) [
  | inl same ↦ ground (arith, ==_iff after c.last_msecs)
  | inr other ↦ ground (arith, ==_iff after c.last_msecs)
]

-- While the clock does not run backwards, stays below 2 ^ 48 milliseconds, and the counter stays
-- below 4096, each id is greater than the one before in its first eight bytes.
pub tick-prefix :
    (c : Clock) (before after : ℕ) (random random' : Bytes)
    → (tick before c).last_msecs ≤ after
    → after < 281474976710656
    → (tick before c).counter < 4096
    → (tick after (tick before c)).counter < 4096
    → prefix (id_bytes before (tick before c).counter random)
      < prefix (id_bytes after (tick after (tick before c)).counter random')
unfolding tick
tick-prefix c before after random random' forward small few few' =
    let first =
      prefix-id_bytes before (tick before c).counter random (omega (arith, forward)) few in
    let second = prefix-id_bytes after (tick after (tick before c)).counter random' small few' in
    let later = counter_step (tick before c) after forward few in
    omega (arith, first, second, later)
