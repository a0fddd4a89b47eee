-- ===== src/Tests/Sharing.antt =====
-- Runs of the shared subscriptions of store.ts.
use zyncbase.Registry.{
  Registration, new_registration, phase_at, is_some, subscribe_sent, subscribe, rejected,
}
use zyncbase.Registry.Steps.{Input, arrives, leaves, timer, ack, ready, not_ready, step, run}
use zyncbase.Registry.Invariant.{IsSound}
use zyncbase.Registry.Histories.{run_new-IsSound}
use zyncbase.Registry.Changes.{unsubscribed, IsDeserted}
use zyncbase.Registry.Safety.{run-cancels, run-handles}
use zyncbase.Registry.Answers.{IsServed, ack-IsServed}
use zyncbase.Prelude.{◌≡◌, refl, ◌⊎◌, true, false, none, [], ◌∷◌, List, inr}

-- Two consumers share a subscription; the last one to leave starts the timer.
abbrev shared : List Input
shared = arrives ∷ arrives ∷ ack true 7 none false ∷ leaves 0 ∷ leaves 1 ∷ []

abbrev fresh : Registration
fresh = new_registration subscribe true 0 0

cancel_tests :
    ((run shared fresh).grace ≡ true)
    × (unsubscribed (run shared fresh).log ≡ [])
    × (unsubscribed (step timer (run shared fresh)).log ≡ 7 ∷ [])
    × ((step arrives (run shared fresh)).grace ≡ false)
unfolding run new_registration unsubscribed
cancel_tests = (refl, refl, refl, refl)

-- A drop of the connection sends the message once more.
retry_test :
    (run (arrives ∷ not_ready ∷ ack true 7 none false ∷ ready ∷ []) fresh).log
    ≡ subscribe_sent ∷ subscribe_sent ∷ []
unfolding run new_registration
retry_test = refl

run_new-IsSound_example : IsSound (run shared (new_registration subscribe true 0 0))
run_new-IsSound_example = run_new-IsSound shared subscribe true 0 0

run-cancels_example :
    (unsubscribed (step timer (run shared (new_registration subscribe true 0 0))).log
      ≡ unsubscribed (run shared (new_registration subscribe true 0 0)).log)
    ⊎ IsDeserted (step timer (run shared (new_registration subscribe true 0 0)))
run-cancels_example = run-cancels shared timer subscribe true 0 0

run-handles_example :
    ((step
        (ack true 7 none false)
        (run (arrives ∷ []) (new_registration subscribe true 0 0))).closed
      ≡ false)
    × (is_some
          (step
            (ack true 7 none false)
            (run (arrives ∷ []) (new_registration subscribe true 0 0))).sub_id
        ≡ true)
    × ((step
          (ack true 7 none false)
          (run (arrives ∷ []) (new_registration subscribe true 0 0))).tracked
        ≡ true)
unfolding run new_registration phase_at
run-handles_example =
    run-handles (arrives ∷ []) (ack true 7 none false) subscribe true 0 0 0 refl refl

-- The comparator of the query does not build: the promise is rejected and the key dropped, and the
-- subscription of the server is not cancelled.
unbuilt_test :
    ((run (arrives ∷ ack false 7 none false ∷ []) fresh).closed ≡ true)
    × (phase_at (run (arrives ∷ ack false 7 none false ∷ []) fresh).consumers 0 ≡ rejected)
    × (unsubscribed (run (arrives ∷ ack false 7 none false ∷ []) fresh).log ≡ [])
unfolding run new_registration phase_at unsubscribed
unbuilt_test = (refl, refl, refl)

ack-IsServed_example :
    IsServed
      (run (arrives ∷ []) (new_registration subscribe true 0 0))
      0
      7
      none
      false
      (step (ack true 7 none false) (run (arrives ∷ []) (new_registration subscribe true 0 0)))
unfolding run new_registration phase_at
ack-IsServed_example =
    ack-IsServed (arrives ∷ []) subscribe true 0 0 0 true 7 none false refl refl (inr refl)
