-- ===== src/Registry/Histories.antt =====
-- The invariant of a registration, through its pages and any sequence of inputs.
use zyncbase.Registry.Steps.{
  page, arrives, leaves, timer, ack, failure, ready, not_ready, switch_begins, switch_rejected,
  switch_lands, disconnects, asks_more, remap, lost, Input, step, run, answered,
}
use zyncbase.Registry.{
  Kind, same_id, Registration, is_some, new_registration, mark_session_ready, mark_not_ready,
  begin_namespace_switch, rollback_namespace_switch, commit_namespace_switch, ask_page, load_more,
  resume, take_page, page_came, remapped, untracked,
}
use zyncbase.Registry.Cases.{if-holds, loop-holds, option-holds}
use zyncbase.Prelude.Text.{Text}
use zyncbase.Prelude.{
  refl, ℕ, Bool, not, ◌&&◌, ◌||◌, Option, none, some, List, [], ◌∷◌, zero, suc, ◌-◌,
}
use zyncbase.Registry.Invariant.{IsSound, new_registration-IsSound, Same-IsSound}
use zyncbase.Registry.Establishing.{failed-IsSound, acknowledged-IsSound, wake-IsSound}
use zyncbase.Registry.Leaving.{grace_fired-IsSound, release-IsSound}
use zyncbase.Registry.Arriving.{attach-IsSound}
use zyncbase.Registry.Rejecting.{reject_pending-IsSound}

not_ready-IsSound : (s : Registration) → IsSound s → IsSound (mark_not_ready s)
unfolding mark_not_ready
not_ready-IsSound s g = Same-IsSound s _ (refl, refl, refl, refl, refl, refl) g

ask_page-IsSound : (s : Registration) → IsSound s → IsSound (ask_page s)
unfolding ask_page
ask_page-IsSound s g = option-holds IsSound s.sub_id _ _ g (λ id.
    option-holds IsSound s.next_cursor _ _ g
      (λ cursor. Same-IsSound s _ (refl, refl, refl, refl, refl, refl) g))

resume-IsSound : (n : ℕ) (s : Registration) → IsSound s → IsSound (resume n s)
unfolding resume
resume-IsSound zero s g = g
resume-IsSound (suc n) s g =
    if-holds IsSound (is_some (ask_page s).in_flight) _ _
      (λ h. Same-IsSound (ask_page s) _ (refl, refl, refl, refl, refl, refl) (ask_page-IsSound s g))
      (λ h. Same-IsSound (ask_page s) _ (refl, refl, refl, refl, refl, refl) (ask_page-IsSound s g))

take_page-IsSound :
    (id : ℕ) (cursor : Option Text) (more : Bool) (s : Registration)
    → IsSound s
    → IsSound (take_page id cursor more s)
unfolding take_page
take_page-IsSound id cursor more s g =
    if-holds IsSound (s.closed || not (same_id id s.sub_id)) _ _ (λ h. g)
      (λ h. Same-IsSound s _ (refl, refl, refl, refl, refl, refl) g)

page_came-IsSound :
    (page : Option (Option Text × Bool)) (s : Registration) → IsSound s → IsSound (page_came page s)
unfolding page_came
page_came-IsSound none s g =
    option-holds IsSound s.in_flight _ _ g
      (λ id. Same-IsSound s _ (refl, refl, refl, refl, refl, refl) g)
page_came-IsSound (some (cursor, more)) s g = option-holds IsSound s.in_flight _ _ g (λ id.
    resume-IsSound s.queued _ (
      Same-IsSound (take_page id cursor more s) _ (refl, refl, refl, refl, refl, refl)
        (take_page-IsSound id cursor more s g)))

load_more-IsSound : (s : Registration) → IsSound s → IsSound (load_more s)
unfolding load_more
load_more-IsSound s g = option-holds IsSound s.in_flight _ _ (ask_page-IsSound s g) (λ id.
    if-holds IsSound (is_some s.sub_id && is_some s.next_cursor) _ _
      (λ h. Same-IsSound s _ (refl, refl, refl, refl, refl, refl) g) (λ h. g))

remapped-IsSound : (id : ℕ) (s : Registration) → IsSound s → IsSound (remapped id s)
unfolding remapped
remapped-IsSound id s g =
    if-holds IsSound s.tracked _ _
      (λ h. record {
        attached = g.attached;
        settled = g.settled;
        abandoned = g.abandoned;
        timed = λ t. ((g.timed t).0, (g.timed t).1, refl);
        awaited = g.awaited;
      })
      (λ h. g)

pub step-IsSound : (x : Input) (s : Registration) → IsSound s → IsSound (step x s)
unfolding step answered mark_session_ready begin_namespace_switch rollback_namespace_switch
    commit_namespace_switch untracked
step-IsSound arrives s g = if-holds IsSound s.closed _ _ (λ h. g) (λ o. attach-IsSound s o g)
step-IsSound (leaves c) s g = release-IsSound c s g
step-IsSound timer s g = grace_fired-IsSound s g
step-IsSound (ack builds id cursor more) s g =
    loop-holds IsSound s.loop _ _ _ (λ e. g) (λ e. g)
      (λ gen e. acknowledged-IsSound builds gen id cursor more s g)
step-IsSound failure s g =
    loop-holds IsSound s.loop _ _ _ (λ e. g) (λ e. g) (λ gen e. failed-IsSound gen s g)
step-IsSound ready s g = wake-IsSound _ (Same-IsSound s _ (refl, refl, refl, refl, refl, refl) g)
step-IsSound not_ready s g = not_ready-IsSound s g
step-IsSound switch_begins s g = Same-IsSound s _ (refl, refl, refl, refl, refl, refl) g
step-IsSound switch_rejected s g =
    wake-IsSound _ (Same-IsSound s _ (refl, refl, refl, refl, refl, refl) g)
step-IsSound switch_lands s g =
    not_ready-IsSound (record s { switch_pending = s.switch_pending - 1 })
      (Same-IsSound s _ (refl, refl, refl, refl, refl, refl) g)
step-IsSound disconnects s g = reject_pending-IsSound s g
step-IsSound asks_more s g = load_more-IsSound s g
step-IsSound (page answer) s g = page_came-IsSound answer s g
step-IsSound (remap id) s g = remapped-IsSound id s g
step-IsSound lost s g = Same-IsSound s _ (refl, refl, refl, refl, refl, refl) g

pub run-IsSound : (xs : List Input) (s : Registration) → IsSound s → IsSound (run xs s)
unfolding run
run-IsSound [] s g = g
run-IsSound (x ∷ xs) s g = run-IsSound xs (step x s) (step-IsSound x s g)

-- Whatever happens to a new registration: a consumer that waits or holds a handle has its callback
-- there while the registration is open; on a closed one nothing waits; the grace timer runs only
-- for an open registration that has a subscription and no callback; and what waits, waits for a
-- loop that runs.
pub run_new-IsSound :
    (xs : List Input) (k : Kind) (r : Bool) (gen switches : ℕ)
    → IsSound (run xs (new_registration k r gen switches))
run_new-IsSound xs k r gen switches = run-IsSound xs _ (new_registration-IsSound k r gen switches)
