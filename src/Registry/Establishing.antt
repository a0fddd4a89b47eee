-- ===== src/Registry/Establishing.antt =====
-- The invariant of a registration, through the acks and failures of its loop.
use zyncbase.Registry.{
  is_subscribe, adopt, Registration, Phase, holding, rejected, is_empty, end_loop, drop_key,
  unsubscribe_if, wake, accept_ack, acknowledged, failed, may_send,
}
use zyncbase.Registry.Cases.{if-holds, loop-holds}
use zyncbase.Registry.Consumers.{is_live, phase_at-settle_all}
use zyncbase.Prelude.Text.{Text}
use zyncbase.Prelude.{◌≡◌, refl, ℕ, Bool, false, not, ◌&&◌, ◌||◌, Option, ◌==◌, arith, true}
use zyncbase.Registry.Invariant.{
  IsSound, Same-IsSound, end_loop-IsSound, drop-IsSound, nobody_of_empty, advance-IsSound,
}

pub unsubscribe_if-IsSound :
    (b : Bool) (id : ℕ) (s : Registration) → IsSound s → IsSound (unsubscribe_if b id s)
unfolding unsubscribe_if
unsubscribe_if-IsSound b id s g = Same-IsSound s _ (refl, refl, refl, refl, refl, refl) g

-- A registration whose loop ends as it is closed.
give_up-IsSound :
    (p : Phase) (s : Registration) → is_live p ≡ false → IsSound (end_loop p (drop_key s))
unfolding end_loop drop_key
give_up-IsSound p s h = record {
  attached = λ o i l. ground arith;
  settled = λ o i. ground (arith, phase_at-settle_all p s.consumers i);
  abandoned = λ o r i. ground arith;
  timed = λ t. ground arith;
  awaited = λ i w. ground (arith, phase_at-settle_all p s.consumers i);
}

pub failed-IsSound : (gen : ℕ) (s : Registration) → IsSound s → IsSound (failed gen s)
unfolding failed
failed-IsSound gen s g =
    if-holds IsSound s.closed _ _ (λ shut. end_loop-IsSound holding s refl g)
      (λ o.
        if-holds IsSound (is_empty s.callbacks) _ _
          (λ e.
            end_loop-IsSound holding (drop_key s) refl (drop-IsSound s (nobody_of_empty s g o e)))
          (λ e.
            if-holds IsSound (not (gen == s.scope_gen) || not (may_send s)) _ _
              (λ again. advance-IsSound s g) (λ last. give_up-IsSound rejected s refl)))

pub adopt-IsSound :
    (id : ℕ) (cursor : Option Text) (more : Bool) (s : Registration)
    → IsSound s
    → IsSound (adopt id cursor more s)
unfolding adopt
adopt-IsSound id cursor more s g = record {
  attached = g.attached;
  settled = g.settled;
  abandoned = g.abandoned;
  timed = λ t. ((g.timed t).0, (g.timed t).1, refl);
  awaited = g.awaited;
}

accept-IsSound :
    (builds : Bool) (gen id : ℕ) (cursor : Option Text) (more : Bool) (s : Registration)
    → IsSound s
    → IsSound (accept_ack builds gen id cursor more s)
unfolding accept_ack
accept-IsSound builds gen id cursor more s g =
    let adopted = adopt id cursor more s in
    let sound = adopt-IsSound id cursor more s g in
    if-holds IsSound (is_subscribe s.kind && not builds) _ _
      (λ thrown. failed-IsSound gen adopted sound)
      (λ built.
        end_loop-IsSound holding (record adopted { tracked = true }) refl
          (Same-IsSound adopted _ (refl, refl, refl, refl, refl, refl) sound))

pub acknowledged-IsSound :
    (builds : Bool) (gen id : ℕ) (cursor : Option Text) (more : Bool) (s : Registration)
    → IsSound s
    → IsSound (acknowledged builds gen id cursor more s)
unfolding acknowledged
acknowledged-IsSound builds gen id cursor more s g =
    if-holds IsSound s.closed _ _
      (λ shut.
        end_loop-IsSound holding _ refl
          (unsubscribe_if-IsSound (s.session_ready && gen == s.scope_gen) id s g))
      (λ o.
        if-holds IsSound (not (gen == s.scope_gen)) _ _ (λ stale. advance-IsSound s g)
          (λ fresh.
            if-holds IsSound (is_empty s.callbacks) _ _
              (λ e. end_loop-IsSound holding _ refl (
                unsubscribe_if-IsSound s.session_ready id (drop_key s)
                  (drop-IsSound s (nobody_of_empty s g o e))))
              (λ some_. accept-IsSound builds gen id cursor more s g)))

pub wake-IsSound : (s : Registration) → IsSound s → IsSound (wake s)
unfolding wake
wake-IsSound s g = loop-holds IsSound s.loop _ _ _ (λ e. g) (λ e. advance-IsSound s g) (λ gen e. g)
