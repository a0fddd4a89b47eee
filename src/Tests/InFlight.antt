-- ===== src/Tests/InFlight.antt =====
-- Runs of the writes of store.ts.
use zyncbase.InFlight.{
  step, Event, starts, is_answered, connection_lost, new_writes, run, progress_at, sending, refused,
  lost_error,
}
use zyncbase.InFlight.Confirmed.{run-lost}
use zyncbase.InFlight.Progresses.{is_open}
use zyncbase.Prelude.{false, ◌≡◌, refl, true, some, List, [], ◌∷◌}
use zyncbase.Prelude.Text.{text}

-- The commit promise of a write whose message is on its way is rejected before anything awaits it.
early_loss :
    progress_at
      (run (starts true (text "w1") (text "Set failed") ∷ connection_lost ∷ []) new_writes).writes
      0
    ≡ sending (some (refused lost_error))
unfolding run new_writes
early_loss = refl

abbrev unconfirmed : List Event
unconfirmed = starts true (text "w1") (text "Set failed") ∷ is_answered 0 ∷ []

run-lost_example :
    is_open (progress_at (step connection_lost (run unconfirmed new_writes)).writes 0) ≡ false
unfolding new_writes progress_at
run-lost_example = run-lost unconfirmed ((λ n h. cc), (tt, tt)) 0
