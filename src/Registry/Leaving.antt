-- ===== src/Registry/Leaving.antt =====
-- The invariant of a registration, as consumers leave.
use zyncbase.Registry.{
  Registration, Phase, waiting, holding, released, rejected, phase_at, remove_callback, is_holding,
  is_some, is_empty, drop_key, leave, release, teardown, grace_fired,
}
use zyncbase.Registry.Cases.{if-holds, option-holds}
use zyncbase.Registry.Consumers.{is_live, is_live-set_phase, is_waiting-set_phase, contains-without}
use zyncbase.Prelude.{◌≡◌, refl, inl, inr, ℕ, true, false, none, arith, Bool-cases}
use zyncbase.Registry.Invariant.{IsSound, drop-IsSound, nobody_of_empty}
use zyncbase.Registry.Establishing.{unsubscribe_if-IsSound}

cut-IsSound :
    (s : Registration)
    → ((c : ℕ) → is_live (phase_at s.consumers c) ≡ false)
    → IsSound (record (drop_key s) { sub_id = none; tracked = false })
unfolding drop_key
cut-IsSound s nobody = record {
  attached = λ o i l. ground arith;
  settled = λ o i. ground (arith, nobody i);
  abandoned = λ o r i. nobody i;
  timed = λ h. ground arith;
  awaited = λ i w. ground (arith, nobody i);
}

-- Without a subscription that is left, closing is all that a teardown does to the invariant.
pub teardown-IsSound :
    (s : Registration) → ((c : ℕ) → is_live (phase_at s.consumers c) ≡ false) → IsSound (teardown s)
unfolding teardown
teardown-IsSound s nobody =
    option-holds IsSound s.sub_id _ _ (drop-IsSound s nobody)
      (λ id. unsubscribe_if-IsSound s.session_ready id _ (cut-IsSound s nobody))

pub grace_fired-IsSound : (s : Registration) → IsSound s → IsSound (grace_fired s)
unfolding grace_fired
grace_fired-IsSound s g =
    if-holds IsSound s.grace _ _
      (λ t.
        teardown-IsSound (record s { grace = false })
          (nobody_of_empty s g (g.timed t).1 (g.timed t).0))
      (λ t. g)

holding-live : (p : Phase) → is_holding p ≡ true → is_live p ≡ true
holding-live waiting h = cc
holding-live holding h = refl
holding-live released h = cc
holding-live rejected h = cc

-- A consumer that leaves was there, so no timer ran.
leave_timed :
    (c : ℕ) (s : Registration)
    → is_holding (phase_at s.consumers c) ≡ true
    → IsSound s
    → (leave c s).grace ≡ true
    → (is_empty (remove_callback c s.callbacks) ≡ true)
      × (s.closed ≡ false)
      × (is_some s.sub_id ≡ true)
unfolding leave
leave_timed c s h g t = elim (Bool-cases s.grace) [
  | inl early ↦
      let (e, o, i) = g.timed early in
      let live = holding-live (phase_at s.consumers c) h in
      let there = nobody_of_empty s g o e c in cc
  | inr late ↦ ground arith
]

leave-IsSound :
    (c : ℕ) (s : Registration)
    → is_holding (phase_at s.consumers c) ≡ true
    → IsSound s
    → IsSound (leave c s)
unfolding leave
leave-IsSound c s h g = record {
  attached = λ o i l.
      ground (
        arith,
        is_live-set_phase s.consumers c i,
        contains-without c s.callbacks i,
        g.attached o i,
      );
  settled = λ o i. ground (arith, is_waiting-set_phase s.consumers c i, g.settled o i);
  abandoned = λ o r i. ground (arith, is_live-set_phase s.consumers c i, g.abandoned o r i);
  timed = λ t. leave_timed c s h g t;
  awaited = λ i w. ground (arith, is_waiting-set_phase s.consumers c i, g.awaited i);
}

pub release-IsSound : (c : ℕ) (s : Registration) → IsSound s → IsSound (release c s)
unfolding release
release-IsSound c s g =
    if-holds IsSound (is_holding (phase_at s.consumers c)) _ _ (λ h. leave-IsSound c s h g) (λ h. g)
