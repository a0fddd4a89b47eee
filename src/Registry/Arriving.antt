-- ===== src/Registry/Arriving.antt =====
-- The invariant of a registration, as consumers arrive.
use mathlib.Core.Bool.{true≢false}
use zyncbase.Registry.{
  Registration, Phase, waiting, holding, Loop, parked, sent, is_waiting, is_some, advance,
  ensure_establishing, attach, may_send,
}
use zyncbase.Registry.Cases.{if-holds, loop-holds}
use zyncbase.Registry.Consumers.{phase_at-append, contains-append}
use zyncbase.Prelude.{◌≡◌, refl, sym, true, false, ◌&&◌, [], ◌∷◌, ◌++◌, length, arith, ◌∙◌}
use zyncbase.Registry.Invariant.{is_running, IsSound, Same-IsSound}

-- With one more consumer, whose loop runs if it waits.
joined : Phase → Loop → Registration → Registration
joined p l s = record s {
  consumers = s.consumers ++ p ∷ [];
  callbacks = s.callbacks ++ length s.consumers ∷ [];
  grace = false;
  loop = l;
}

joined-IsSound :
    (p : Phase) (l : Loop) (s : Registration)
    → (is_waiting p ≡ true → is_running l ≡ true)
    → (is_running s.loop ≡ true → is_running l ≡ true)
    → s.closed ≡ false
    → IsSound s
    → IsSound (joined p l s)
unfolding joined
joined-IsSound p l s first others open_ g = record {
  attached = λ o i h. ground (
    arith,
    phase_at-append s.consumers p i,
    contains-append s.callbacks (length s.consumers) i,
    g.attached open_ i,
  );
  settled = λ o i. ground arith;
  abandoned = λ o r i. ground arith;
  timed = λ t. ground arith;
  awaited = λ i w. ground (arith, phase_at-append s.consumers p i, g.awaited i, first, others);
}

pub attach-IsSound : (s : Registration) → s.closed ≡ false → IsSound s → IsSound (attach s)
unfolding attach ensure_establishing advance joined
attach-IsSound s o g =
    if-holds IsSound (is_some s.sub_id && s.tracked) _ _
      (λ t. joined-IsSound holding s.loop s (λ w. cc) (λ r. r) o g)
      (λ t.
        loop-holds IsSound s.loop _ _ _
          (λ e.
            if-holds IsSound s.closed _ _ (λ shut. absurd (true≢false (sym shut ∙ o)))
              (λ o'.
                if-holds IsSound (may_send s) _ _
                  (λ may.
                    Same-IsSound (joined waiting (sent s.scope_gen) s) _
                      (refl, refl, refl, refl, refl, refl)
                      (joined-IsSound waiting (sent s.scope_gen) s (λ w. refl) (λ r. refl) o g))
                  (λ may. joined-IsSound waiting parked s (λ w. refl) (λ r. refl) o g)))
          (λ e. joined-IsSound waiting s.loop s (λ w. rw e refl) (λ r. r) o g)
          (λ gen e. joined-IsSound waiting s.loop s (λ w. rw e refl) (λ r. r) o g))
