-- ===== src/Registry/SafeSteps.antt =====
-- The loop, the timer and the consumers of a registration.
use zyncbase.Registry.Invariant.{IsSound, nobody_of_empty}
use zyncbase.Registry.{
  is_subscribe, adopt, Registration, Phase, waiting, holding, released, rejected, sent,
  subscribe_sent, phase_at, settle_phase, is_waiting, is_holding, is_some, is_empty, end_loop,
  advance, drop_key, unsubscribe_if, wake, ensure_establishing, attach, leave, release, teardown,
  grace_fired, accept_ack, acknowledged, failed, may_send,
}
use mathlib.Core.Bool.{true≢false}
use zyncbase.Registry.Establishing.{adopt-IsSound}
use zyncbase.Registry.Cases.{if-holds, loop-holds, option-holds}
use zyncbase.Registry.Consumers.{is_holding-set_phase, phase_at-settle_all}
use zyncbase.Prelude.{
  ◌≡◌, refl, sym, inl, inr, ℕ, Bool, true, false, not, ◌&&◌, ◌||◌, Option, ◌==◌, arith, ◌∙◌,
}
use zyncbase.Prelude.Text.{Text}
use zyncbase.Registry.Changes.{
  unsubscribed, IsDeserted, IsSafe, log_quiet, not_both, calm, ended, grown, deserted,
  settle-nobody,
}

-- A loop of a registration that was closed, on which nothing waits.
advance-IsSafe :
    (s t : Registration)
    → IsSound s
    → t.closed ≡ s.closed
    → t.consumers ≡ s.consumers
    → unsubscribed t.log ≡ unsubscribed s.log
    → IsSafe s (advance t)
unfolding advance end_loop unsubscribed
advance-IsSafe s t g o same quiet =
    if-holds (IsSafe s) t.closed _ _ (λ shut. ended s _ (inl quiet) (g.settled (sym o ∙ shut)))
      (λ o'.
        if-holds (IsSafe s) (may_send t) _ _
          (λ may. calm s _ same (log_quiet t.log subscribe_sent refl ∙ quiet))
          (λ may. calm s _ same quiet))

pub wake-IsSafe :
    (s t : Registration)
    → IsSound s
    → t.closed ≡ s.closed
    → t.consumers ≡ s.consumers
    → unsubscribed t.log ≡ unsubscribed s.log
    → IsSafe s (wake t)
unfolding wake
wake-IsSafe s t g o same quiet =
    loop-holds (IsSafe s) t.loop _ _ _ (λ e. calm s t same quiet)
      (λ e. advance-IsSafe s t g o same quiet) (λ gen e. calm s t same quiet)

not_rejected :
    (p : Phase) {A : Type 0} → is_waiting p ≡ true → is_holding (settle_phase rejected p) ≡ true → A
not_rejected waiting w h = cc
not_rejected holding w h = cc
not_rejected released w h = cc
not_rejected rejected w h = cc

pub failed-IsSafe : (gen : ℕ) (s : Registration) → IsSound s → IsSafe s (failed gen s)
unfolding failed end_loop drop_key
failed-IsSafe gen s g =
    if-holds (IsSafe s) s.closed _ _ (λ shut. ended s _ (inl refl) (g.settled shut))
      (λ o.
        if-holds (IsSafe s) (is_empty s.callbacks) _ _
          (λ e. deserted s _ (inl refl) (nobody_of_empty s g o e))
          (λ e.
            if-holds (IsSafe s) (not (gen == s.scope_gen) || not (may_send s)) _ _
              (λ again. advance-IsSafe s s g refl refl refl)
              (λ last. record {
                spares = inl refl;
                earned = λ c w h.
                    not_rejected (phase_at s.consumers c) w
                      (rw (phase_at-settle_all rejected s.consumers c) at h);
              })))

accept-IsSafe :
    (builds : Bool) (gen id : ℕ) (cursor : Option Text) (more : Bool) (s : Registration)
    → IsSound s
    → s.closed ≡ false
    → IsSafe s (accept_ack builds gen id cursor more s)
unfolding accept_ack adopt end_loop
accept-IsSafe builds gen id cursor more s g o =
    if-holds (IsSafe s) (is_subscribe s.kind && not builds) _ _
      (λ thrown.
        let safe = failed-IsSafe gen (adopt id cursor more s) (adopt-IsSound id cursor more s g) in
        record { spares = safe.spares; earned = safe.earned })
      (λ built. record { spares = inl refl; earned = λ c w h. (o, refl, refl) })

pub acknowledged-IsSafe :
    (builds : Bool) (gen id : ℕ) (cursor : Option Text) (more : Bool) (s : Registration)
    → IsSound s
    → s.loop ≡ sent gen
    → IsSafe s (acknowledged builds gen id cursor more s)
unfolding acknowledged end_loop unsubscribe_if drop_key
acknowledged-IsSafe builds gen id cursor more s g l =
    if-holds (IsSafe s) s.closed _ _
      (λ shut.
        ended s _ (inr (settle-nobody holding s.consumers (g.abandoned shut (rw l refl))))
          (g.settled shut))
      (λ o.
        if-holds (IsSafe s) (not (gen == s.scope_gen)) _ _
          (λ stale. advance-IsSafe s s g refl refl refl)
          (λ fresh.
            if-holds (IsSafe s) (is_empty s.callbacks) _ _
              (λ e.
                deserted s _ (inr (settle-nobody holding s.consumers (nobody_of_empty s g o e)))
                  (nobody_of_empty s g o e))
              (λ e. accept-IsSafe builds gen id cursor more s g o)))

pub teardown-IsDeserted : (s : Registration) → IsDeserted s → IsDeserted (teardown s)
unfolding teardown drop_key unsubscribe_if
teardown-IsDeserted s nobody = option-holds IsDeserted s.sub_id _ _ nobody (λ id. nobody)

pub grace_fired-IsSafe : (s : Registration) → IsSound s → IsSafe s (grace_fired s)
unfolding grace_fired
grace_fired-IsSafe s g =
    if-holds (IsSafe s) s.grace _ _
      (λ t.
        let nobody = nobody_of_empty s g (g.timed t).1 (g.timed t).0 in
        deserted s _ (inr (teardown-IsDeserted (record s { grace = false }) nobody)) nobody)
      (λ t. calm s s refl refl)

pub release-IsSafe : (c : ℕ) (s : Registration) → IsSafe s (release c s)
unfolding release leave
release-IsSafe c s =
    if-holds (IsSafe s) (is_holding (phase_at s.consumers c)) _ _
      (λ h. record {
        spares = inl refl;
        earned = λ d w held.
            not_both (phase_at s.consumers d) w
              (ground (arith, is_holding-set_phase s.consumers c d));
      })
      (λ h. calm s s refl refl)

pub attach-IsSafe : (s : Registration) → s.closed ≡ false → IsSafe s (attach s)
unfolding attach ensure_establishing advance unsubscribed
attach-IsSafe s o =
    if-holds (IsSafe s) (is_some s.sub_id && s.tracked) _ _ (λ t. grown holding s _ refl refl)
      (λ t.
        loop-holds (IsSafe s) s.loop _ _ _
          (λ e.
            if-holds (IsSafe s) s.closed _ _ (λ shut. absurd (true≢false (sym shut ∙ o)))
              (λ o'.
                if-holds (IsSafe s) (may_send s) _ _
                  (λ may. grown waiting s _ refl (log_quiet s.log subscribe_sent refl))
                  (λ may. grown waiting s _ refl refl)))
          (λ e. grown waiting s _ refl refl) (λ gen e. grown waiting s _ refl refl))
