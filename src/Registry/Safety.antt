-- ===== src/Registry/Safety.antt =====
-- What consumers can rely on: no unsubscribe while they are there, and no handle without a
-- subscription.
use zyncbase.Registry.{
  Kind, is_holding, same_id, Registration, Phase, waiting, holding, released, rejected,
  subscribe_sent, load_more_sent, phase_at, settle_all, settle_phase, is_waiting, is_some, is_empty,
  new_registration, end_loop, advance, drop_key, unsubscribe_if, wake, teardown, may_send,
  mark_session_ready, mark_not_ready, begin_namespace_switch, rollback_namespace_switch,
  commit_namespace_switch, reject_waiting, reject_pending, ask_page, load_more, resume, take_page,
  page_came, remapped, untracked,
}
use zyncbase.Registry.Changes.{
  IsDeserted, unsubscribed, Spares, IsSafe, log_quiet, calm, settle-nobody,
}
use zyncbase.Registry.Rejecting.{reject_waiting-IsSound}
use zyncbase.Registry.Invariant.{IsSound, nobody_of_empty}
use zyncbase.Registry.Histories.{run_new-IsSound}
use zyncbase.Registry.Steps.{
  Input, arrives, leaves, timer, ack, failure, ready, not_ready, switch_begins, switch_rejected,
  switch_lands, disconnects, asks_more, page, remap, lost, step, run, answered,
}
use zyncbase.Registry.Cases.{if-holds, loop-holds, option-holds}
use zyncbase.Registry.Consumers.{phase_at-settle_all}
use zyncbase.Prelude.{
  ◌-◌, ◌≡◌, refl, inl, inr, ℕ, Bool, true, not, ◌&&◌, ◌||◌, Option, none, some, List, arith, ◌∙◌,
  ap, zero, suc, ◌⊎◌, false,
}
use zyncbase.Prelude.Text.{Text}
use zyncbase.Registry.SafeSteps.{
  wake-IsSafe, acknowledged-IsSafe, failed-IsSafe, teardown-IsDeserted, grace_fired-IsSafe,
  release-IsSafe, attach-IsSafe,
}

ask_page-IsSafe : (s : Registration) → IsSafe s (ask_page s)
unfolding ask_page unsubscribed
ask_page-IsSafe s = option-holds (IsSafe s) s.sub_id _ _ (calm s s refl refl) (λ id.
    option-holds (IsSafe s) s.next_cursor _ _ (calm s s refl refl)
      (λ cursor. calm s _ refl (log_quiet s.log (load_more_sent id cursor) refl)))

load_more-IsSafe : (s : Registration) → IsSafe s (load_more s)
unfolding load_more
load_more-IsSafe s = option-holds (IsSafe s) s.in_flight _ _ (ask_page-IsSafe s) (λ id.
    if-holds (IsSafe s) (is_some s.sub_id && is_some s.next_cursor) _ _ (λ h. calm s _ refl refl)
      (λ h. calm s s refl refl))

resume-IsSafe :
    (n : ℕ) (s t : Registration) → IsSafe s (ask_page t) → IsSafe s t → IsSafe s (resume n t)
unfolding resume
resume-IsSafe zero s t asked same = same
resume-IsSafe (suc n) s t asked same =
    if-holds (IsSafe s) (is_some (ask_page t).in_flight) _ _
      (λ h. record { spares = asked.spares; earned = asked.earned })
      (λ h. record { spares = asked.spares; earned = asked.earned })

-- What is taken from a page matters to nobody's handle.
ask_page-calm :
    (s t : Registration)
    → t.consumers ≡ s.consumers
    → unsubscribed t.log ≡ unsubscribed s.log
    → IsSafe s (ask_page t)
unfolding ask_page unsubscribed
ask_page-calm s t same quiet = option-holds (IsSafe s) t.sub_id _ _ (calm s t same quiet) (λ id.
    option-holds (IsSafe s) t.next_cursor _ _ (calm s t same quiet)
      (λ cursor. calm s _ same (log_quiet t.log (load_more_sent id cursor) refl ∙ quiet)))

take_page-calm :
    (id : ℕ) (cursor : Option Text) (more : Bool) (s : Registration)
    → ((take_page id cursor more s).consumers ≡ s.consumers)
      × ((take_page id cursor more s).log ≡ s.log)
unfolding take_page
take_page-calm id cursor more s =
    if-holds (λ t. (t.consumers ≡ s.consumers) × (t.log ≡ s.log))
      (s.closed || not (same_id id s.sub_id)) _ _ (λ h. (refl, refl)) (λ h. (refl, refl))

page_came-IsSafe :
    (answer : Option (Option Text × Bool)) (s : Registration) → IsSafe s (page_came answer s)
unfolding page_came
page_came-IsSafe none s =
    option-holds (IsSafe s) s.in_flight _ _ (calm s s refl refl) (λ id. calm s _ refl refl)
page_came-IsSafe (some (cursor, more)) s =
    option-holds (IsSafe s) s.in_flight _ _ (calm s s refl refl) (λ id.
      let (same, quiet) = take_page-calm id cursor more s in
      let t = record (take_page id cursor more s) { in_flight = none } in
      resume-IsSafe s.queued s t (ask_page-calm s t same (ap unsubscribed quiet))
        (calm s t same (ap unsubscribed quiet)))

rejected_at : (p : Phase) → is_waiting p ≡ true → settle_phase rejected p ≡ rejected
rejected_at waiting w = refl
rejected_at holding w = cc
rejected_at released w = cc
rejected_at rejected w = cc

-- What waited was rejected.
over :
    (s t : Registration)
    → ((c : ℕ) → is_waiting (phase_at s.consumers c) ≡ true → phase_at t.consumers c ≡ rejected)
    → Spares s t
    → IsSafe s t
over s t refused spared = record {
  spares = spared;
  earned = λ c w h. (let g = rw (refused c w) at h in cc);
}

module _ (s x : Registration) (same : x.consumers ≡ settle_all rejected s.consumers) where
  refused : (c : ℕ) → is_waiting (phase_at s.consumers c) ≡ true → phase_at x.consumers c ≡ rejected
  refused c w =
      rw (same, phase_at-settle_all rejected s.consumers c) (rejected_at (phase_at s.consumers c) w)

  refused_after :
      (c : ℕ)
      → is_waiting (phase_at s.consumers c) ≡ true
      → phase_at (settle_all holding x.consumers) c ≡ rejected
  refused_after c w =
      phase_at-settle_all holding x.consumers c ∙ ap (settle_phase holding) (refused c w)

  wake-over : Spares s x → IsSafe s (wake x)
  unfolding wake advance end_loop unsubscribed
  wake-over spared =
      loop-holds (IsSafe s) x.loop _ _ _ (λ e. over s x refused spared)
        (λ e.
          if-holds (IsSafe s) x.closed _ _
            (λ shut. over s _ refused_after (elim spared [
              | inl quiet ↦ inl quiet
              | inr nobody ↦ inr (settle-nobody holding x.consumers nobody)
            ]))
            (λ o.
              if-holds (IsSafe s) (may_send x) _ _
                (λ may. over s _ refused (elim spared [
                  | inl quiet ↦ inl (log_quiet x.log subscribe_sent refl ∙ quiet)
                  | inr nobody ↦ inr nobody
                ]))
                (λ may. over s _ refused spared)))
        (λ gen e. over s x refused spared)

pub teardown-consumers : (s : Registration) → (teardown s).consumers ≡ s.consumers
unfolding teardown drop_key unsubscribe_if
teardown-consumers s = option-holds (λ t. t.consumers ≡ s.consumers) s.sub_id _ _ refl (λ id. refl)

reject_pending-IsSafe : (s : Registration) → IsSound s → IsSafe s (reject_pending s)
unfolding reject_pending reject_waiting
reject_pending-IsSafe s g =
    let r = reject_waiting-IsSound s g in
    if-holds (λ t. IsSafe s (wake t)) (not s.closed && is_empty (reject_waiting s).callbacks) _ _
      (λ h. wake-over s (teardown (reject_waiting s)) (teardown-consumers (reject_waiting s)) (
        inr (
          teardown-IsDeserted (reject_waiting s)
            (nobody_of_empty (reject_waiting s) r (ground arith) (ground arith)))))
      (λ h. wake-over s (reject_waiting s) refl (inl refl))

pub step-IsSafe : (x : Input) (s : Registration) → IsSound s → IsSafe s (step x s)
unfolding step answered mark_session_ready begin_namespace_switch rollback_namespace_switch
    commit_namespace_switch untracked mark_not_ready remapped
step-IsSafe arrives s g =
    if-holds (IsSafe s) s.closed _ _ (λ h. calm s s refl refl) (λ o. attach-IsSafe s o)
step-IsSafe (leaves c) s g = release-IsSafe c s
step-IsSafe timer s g = grace_fired-IsSafe s g
step-IsSafe (ack builds id cursor more) s g =
    loop-holds (IsSafe s) s.loop _ _ _ (λ e. calm s s refl refl) (λ e. calm s s refl refl)
      (λ gen e. acknowledged-IsSafe builds gen id cursor more s g e)
step-IsSafe failure s g =
    loop-holds (IsSafe s) s.loop _ _ _ (λ e. calm s s refl refl) (λ e. calm s s refl refl)
      (λ gen e. failed-IsSafe gen s g)
step-IsSafe ready s g = wake-IsSafe s (record s { session_ready = true }) g refl refl refl
step-IsSafe not_ready s g = calm s _ refl refl
step-IsSafe switch_begins s g = calm s _ refl refl
step-IsSafe switch_rejected s g =
    wake-IsSafe s (record s { switch_pending = s.switch_pending - 1 }) g refl refl refl
step-IsSafe switch_lands s g = calm s _ refl refl
step-IsSafe disconnects s g = reject_pending-IsSafe s g
step-IsSafe asks_more s g = load_more-IsSafe s
step-IsSafe (page answer) s g = page_came-IsSafe answer s
step-IsSafe (remap id) s g =
    if-holds (IsSafe s) s.tracked _ _ (λ h. calm s _ refl refl) (λ h. calm s s refl refl)
step-IsSafe lost s g = calm s _ refl refl

module _ (xs : List Input) (x : Input) (k : Kind) (r : Bool) (gen switches : ℕ) where
  run-step-IsSafe :
      IsSafe
        (run xs (new_registration k r gen switches))
        (step x (run xs (new_registration k r gen switches)))
  run-step-IsSafe =
      step-IsSafe x (run xs (new_registration k r gen switches))
        (run_new-IsSound xs k r gen switches)

  -- After any history of a new registration, whatever comes next: either no subscription is cancelled,
  -- or no consumer waits or holds a handle after it.
  pub run-cancels :
      (unsubscribed (step x (run xs (new_registration k r gen switches))).log
        ≡ unsubscribed (run xs (new_registration k r gen switches)).log)
      ⊎ IsDeserted (step x (run xs (new_registration k r gen switches)))
  run-cancels = run-step-IsSafe.spares

  -- After any history of a new registration, whatever comes next: a consumer that waited and then has
  -- its handle has the handle of a registration that is open, with a subscription that is tracked.
  pub run-handles :
      (c : ℕ)
      → is_waiting (phase_at (run xs (new_registration k r gen switches)).consumers c) ≡ true
      → is_holding (phase_at (step x (run xs (new_registration k r gen switches))).consumers c)
        ≡ true
      → ((step x (run xs (new_registration k r gen switches))).closed ≡ false)
        × (is_some (step x (run xs (new_registration k r gen switches))).sub_id ≡ true)
        × ((step x (run xs (new_registration k r gen switches))).tracked ≡ true)
  run-handles = run-step-IsSafe.earned
