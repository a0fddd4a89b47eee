-- ===== src/Registry/Invariant.antt =====
-- What holds of a registration at any time.
use zyncbase.Registry.{
  Kind, Registration, Phase, holding, Loop, idle, parked, sent, phase_at, is_waiting, is_some,
  is_empty, new_registration, end_loop, advance, drop_key, may_send,
}
use zyncbase.Registry.Cases.{if-holds}
use zyncbase.Registry.Consumers.{is_live, contains, phase_at-settle_all}
use zyncbase.Prelude.{◌≡◌, refl, ℕ, Bool, true, false, arith, ◌∙◌}

abbrev pub is_running : Loop → Bool
is_running idle = false
is_running _ = true

-- A live consumer of an open registration has its callback there; nothing waits on a closed one, and
-- none is live on one whose loop still runs; the grace timer runs only for an open registration with
-- a subscription and no callbacks; and what waits, waits for a loop.
pub record IsSound (s : Registration) : Type 0 where
  pub attached :
      s.closed ≡ false
      → (c : ℕ) → is_live (phase_at s.consumers c) ≡ true
      → contains c s.callbacks ≡ true
  pub settled : s.closed ≡ true → (c : ℕ) → is_waiting (phase_at s.consumers c) ≡ false
  pub abandoned :
      s.closed ≡ true
      → is_running s.loop ≡ true
      → (c : ℕ) → is_live (phase_at s.consumers c) ≡ false
  pub timed :
      s.grace ≡ true
      → (is_empty s.callbacks ≡ true) × (s.closed ≡ false) × (is_some s.sub_id ≡ true)
  pub awaited : (c : ℕ) → is_waiting (phase_at s.consumers c) ≡ true → is_running s.loop ≡ true

pub new_registration-IsSound :
    (k : Kind) (r : Bool) (gen switches : ℕ) → IsSound (new_registration k r gen switches)
unfolding new_registration phase_at
new_registration-IsSound k r gen switches = record {
  attached = λ o c h. ground arith;
  settled = λ o c. refl;
  abandoned = λ o h c. refl;
  timed = λ h. ground arith;
  awaited = λ c h. ground arith;
}

-- The fields that the invariant reads.
abbrev pub Same : Registration → Registration → Type 0
Same s t =
    (s.consumers ≡ t.consumers)
    × (s.callbacks ≡ t.callbacks)
    × (s.closed ≡ t.closed)
    × (s.loop ≡ t.loop)
    × (s.grace ≡ t.grace)
    × (is_some s.sub_id ≡ is_some t.sub_id)

pub Same-IsSound : (s t : Registration) → Same s t → IsSound s → IsSound t
Same-IsSound s t (a, b, c, d, e, f) g = record {
  attached = λ o i h. rw (← b) (g.attached (c ∙ o) i (rw (← a) at h));
  settled = λ o i. rw (← a) (g.settled (c ∙ o) i);
  abandoned = λ o r i. rw (← a) (g.abandoned (c ∙ o) (rw (← d) at r) i);
  timed = λ h. rw (← b, ← c, ← f) (g.timed (e ∙ h));
  awaited = λ i w. rw (← d) (g.awaited i (rw (← a) at w));
}

pub end_loop-IsSound :
    (p : Phase) (s : Registration) → is_waiting p ≡ false → IsSound s → IsSound (end_loop p s)
unfolding end_loop
end_loop-IsSound p s h g = record {
  attached = λ o i l. ground (arith, phase_at-settle_all p s.consumers i, g.attached o i);
  settled = λ o i. ground (arith, phase_at-settle_all p s.consumers i, g.settled o i);
  abandoned = λ o r. ground arith;
  timed = g.timed;
  awaited = λ i w. ground (arith, phase_at-settle_all p s.consumers i);
}

-- Closing a registration of which nobody is left, or whose loop ends with it.
pub drop-IsSound :
    (s : Registration) → ((c : ℕ) → is_live (phase_at s.consumers c) ≡ false) → IsSound (drop_key s)
unfolding drop_key
drop-IsSound s nobody = record {
  attached = λ o i l. ground arith;
  settled = λ o i. ground (arith, nobody i);
  abandoned = λ o r i. nobody i;
  timed = λ h. ground arith;
  awaited = λ i w. ground (arith, nobody i);
}

pub nobody_of_empty :
    (s : Registration)
    → IsSound s
    → s.closed ≡ false
    → is_empty s.callbacks ≡ true
    → (c : ℕ) → is_live (phase_at s.consumers c) ≡ false
unfolding contains
nobody_of_empty s g o e c = ground (arith, g.attached o c)

-- A loop that starts or goes on.
looping : Loop → Registration → Registration
looping l s = record s { loop = l }

looping-IsSound :
    (l : Loop) (s : Registration)
    → is_running l ≡ true
    → s.closed ≡ false
    → IsSound s
    → IsSound (looping l s)
unfolding looping
looping-IsSound l s r o g = record {
  attached = g.attached;
  settled = g.settled;
  abandoned = λ c. ground arith;
  timed = g.timed;
  awaited = λ i w. r;
}

pub advance-IsSound : (s : Registration) → IsSound s → IsSound (advance s)
unfolding advance looping
advance-IsSound s g =
    if-holds IsSound s.closed _ _ (λ shut. end_loop-IsSound holding s refl g)
      (λ o.
        if-holds IsSound (may_send s) _ _
          (λ may.
            Same-IsSound (looping (sent s.scope_gen) s) _ (refl, refl, refl, refl, refl, refl)
              (looping-IsSound (sent s.scope_gen) s refl o g))
          (λ may. looping-IsSound parked s refl o g))
