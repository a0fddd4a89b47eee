-- ===== src/InFlight.antt =====
-- The writes of `StoreImpl` in sdk/typescript/src/store.ts, from `dispatchWrite` on. A write is a
-- number, in the order of the calls. With "committed" it waits first for the answer to its message and
-- then for its commit promise, which the map `inFlightWrites` settles by write id.
pub mod Progresses
pub mod Commits
pub mod Lost
pub mod Confirmed
use zyncbase.Prelude.{
  ℕ, zero, suc, Bool, true, false, Option, none, some, List, [], ◌∷◌, ◌++◌, length,
}
use zyncbase.Prelude.Text.{Text, text}
use zyncbase.Prelude.Dict.{Dict, lookup, insert, delete}
use zyncbase.Prelude.Result.{Result, ok, err}
use zyncbase.Errors.{
  ZyncBaseError, Thrown, new_error, connection_failed, network, invalid_message, client,
  ServerPayload, from_server_response, to_zync_error,
}

-- The commit promise.
pub data Commit : Type 0 where
  open_commit : Commit
  committed : Commit
  refused : ZyncBaseError → Commit

-- A write waits for its answer, with a commit promise if it wants one, or for the commit, or has
-- settled.
pub data Progress : Type 0 where
  sending : Option Commit → Progress
  awaiting : Progress
  succeeded : Progress
  failed_with : ZyncBaseError → Progress

pub record Write : Type 0 where
  pub id : Text
  pub fallback : Text
  pub progress : Progress

pub record Writes : Type 0 where
  pub writes : List Write
  pub in_flight : Dict ℕ
  pub emitted : List ZyncBaseError

unfoldable pub new_writes : Writes
new_writes = record { writes = []; in_flight = []; emitted = [] }

unfoldable pub progress_at : List Write → ℕ → Progress
progress_at [] n = sending none
progress_at (w ∷ ws) zero = w.progress
progress_at (w ∷ ws) (suc n) = progress_at ws n

unfoldable pub id_at : List Write → ℕ → Text
id_at [] n = []
id_at (w ∷ ws) zero = w.id
id_at (w ∷ ws) (suc n) = id_at ws n

unfoldable pub fallback_at : List Write → ℕ → Text
fallback_at [] n = []
fallback_at (w ∷ ws) zero = w.fallback
fallback_at (w ∷ ws) (suc n) = fallback_at ws n

unfoldable pub set_progress : List Write → ℕ → Progress → List Write
set_progress [] n p = []
set_progress (w ∷ ws) zero p = record w { progress = p } ∷ ws
set_progress (w ∷ ws) (suc n) p = w ∷ set_progress ws n p

-- `dispatchWrite` up to its first `await`: with a commit promise in the map, or without one.
unfoldable pub dispatch_write : Bool → Text → Text → Writes → Result ZyncBaseError Writes
unfolding new_error insert
dispatch_write false id fallback s = ok (record s {
  writes = s.writes ++ record { id = id; fallback = fallback; progress = sending none } ∷ [];
})
dispatch_write true [] fallback s =
    err (
      new_error (text "writeId is required for committed confirmation") invalid_message client
        false)
dispatch_write true (c ∷ id) fallback s = ok (record s {
  writes =
      s.writes
      ++ record { id = c ∷ id; fallback = fallback; progress = sending (some open_commit) } ∷ [];
  in_flight = insert (c ∷ id) (length s.writes) s.in_flight;
})

-- `emitAndThrow`, as the end of a write.
unfoldable pub throw_at : ℕ → ZyncBaseError → Writes → Writes
unfolding set_progress
throw_at n e s = record s {
  writes = set_progress s.writes n (failed_with e);
  emitted = s.emitted ++ e ∷ [];
}

unfoldable pub succeed_at : ℕ → Writes → Writes
unfolding set_progress
succeed_at n s = record s { writes = set_progress s.writes n succeeded }

-- What a write does with its commit promise when the answer has come.
unfoldable pub await_commit : ℕ → Option Commit → Writes → Writes
unfolding succeed_at throw_at set_progress
await_commit n none s = succeed_at n s
await_commit n (some open_commit) s = record s { writes = set_progress s.writes n awaiting }
await_commit n (some committed) s = succeed_at n s
await_commit n (some (refused e)) s = throw_at n e s

-- The `catch` of the first `await`, which forgets the commit promise.
unfoldable pub forget : Option Commit → Text → Dict ℕ → Dict ℕ
unfolding delete
forget none id m = m
forget (some commit) id m = delete id m

unfoldable pub dispatch_failed : ℕ → Thrown → Option Commit → Writes → Writes
unfolding id_at fallback_at forget throw_at to_zync_error
dispatch_failed n thrown commit s =
    throw_at n (to_zync_error thrown (fallback_at s.writes n) true)
      (record s { in_flight = forget commit (id_at s.writes n) s.in_flight })

-- A promise settles once.
unfoldable pub settle_promise : Commit → Option Commit → Option Commit
settle_promise commit (some open_commit) = some commit
settle_promise commit old = old

-- The commit promise of a write settles; the write that awaits it goes on.
unfoldable pub settle_commit : Commit → ℕ → Writes → Writes
unfolding progress_at set_progress await_commit settle_promise
settle_commit commit n s = elim (progress_at s.writes n) [
  | sending old ↦ record s {
    writes = set_progress s.writes n (sending (settle_promise commit old));
  }
  | awaiting ↦ await_commit n (some commit) s
  | succeeded ↦ s
  | failed_with e ↦ s
]

-- `handleInboundMessage` for "WriteCommitted" and "WriteError".
unfoldable pub settle_id : Text → Commit → Writes → Writes
unfolding lookup delete settle_commit
settle_id id commit s = elim (lookup id s.in_flight) [
  | none ↦ s
  | some n ↦ settle_commit commit n (record s { in_flight = delete id s.in_flight })
]

abbrev pub lost_error : ZyncBaseError
lost_error =
    new_error (text "Connection closed before write was confirmed") connection_failed network true

-- The loop of `rejectAllInFlight`.
unfoldable pub reject_each : Dict ℕ → Writes → Writes
unfolding settle_commit
reject_each [] s = s
reject_each ((id, n) ∷ m) s = reject_each m (settle_commit (refused lost_error) n s)

-- `rejectAllInFlight`
unfoldable pub reject_all_in_flight : Writes → Writes
unfolding reject_each
reject_all_in_flight s = record (reject_each s.in_flight s) { in_flight = [] }

pub data Event : Type 0 where
  starts : Bool → Text → Text → Event
  is_answered : ℕ → Event
  fails : ℕ → Thrown → Event
  write_committed : Text → Event
  write_error : Text → ServerPayload → Event
  connection_lost : Event

abbrev pub started : Result ZyncBaseError Writes → Writes → Writes
started (ok t) s = t
started (err e) s = s

-- The environment: a reply to the message of a write comes only while the write waits for it.
unfoldable pub when_sending : ℕ → (Option Commit → Writes → Writes) → Writes → Writes
unfolding progress_at
when_sending n reply s = elim (progress_at s.writes n) [
  | sending commit ↦ reply commit s
  | awaiting ↦ s
  | succeeded ↦ s
  | failed_with e ↦ s
]

unfoldable pub step : Event → Writes → Writes
unfolding dispatch_write await_commit dispatch_failed settle_id reject_all_in_flight
    from_server_response when_sending
step (starts confirm id fallback) s = started (dispatch_write confirm id fallback s) s
step (is_answered n) s = when_sending n (await_commit n) s
step (fails n thrown) s = when_sending n (dispatch_failed n thrown) s
step (write_committed id) s = settle_id id committed s
step (write_error id payload) s = settle_id id (refused (from_server_response payload)) s
step connection_lost s = reject_all_in_flight s

unfoldable pub run : List Event → Writes → Writes
unfolding step
run [] s = s
run (x ∷ xs) s = run xs (step x s)
