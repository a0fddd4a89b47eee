-- ===== src/InFlight/Confirmed.antt =====
-- The writes after any history in which write ids are not used twice at the same time.
use zyncbase.Errors.{from_server_response}
use zyncbase.InFlight.{
  new_writes, Write, Writes, sending, open_commit, committed, refused, progress_at, id_at, step,
  run, Event, starts, is_answered, fails, write_committed, write_error, connection_lost,
  dispatch_write,
}
use zyncbase.InFlight.Progresses.{is_open, progress_at-append, id_at-append}
use zyncbase.InFlight.Lost.{
  IsTied, new_writes-IsTied, open_wants, answered-IsTied, settle_id-IsTied, failed-IsTied,
  lost-closed, lost-IsTied, IsFresh, AreFresh,
}
use zyncbase.Prelude.{◌≡◌, refl, ℕ, Bool, true, false, none, some, List, [], ◌∷◌, length, arith}
use zyncbase.Prelude.Text.{Text, text_eq_iff}
use zyncbase.Prelude.Dict.{lookup-insert}

start-IsTied :
    (confirm : Bool) (id fallback : Text) (s : Writes)
    → IsFresh (starts confirm id fallback) s
    → IsTied s
    → IsTied (step (starts confirm id fallback) s)
unfolding step dispatch_write
start-IsTied false id fallback s new g = record {
  tied = λ n h. ground (
    arith,
    progress_at-append s.writes (record { id = id; fallback = fallback; progress = sending none })
        n,
    id_at-append s.writes (record { id = id; fallback = fallback; progress = sending none }) n,
    g.tied n,
  );
  apart = λ n m h k e. ground (
    arith,
    progress_at-append s.writes (record { id = id; fallback = fallback; progress = sending none })
        n,
    id_at-append s.writes (record { id = id; fallback = fallback; progress = sending none }) n,
    progress_at-append s.writes (record { id = id; fallback = fallback; progress = sending none })
        m,
    id_at-append s.writes (record { id = id; fallback = fallback; progress = sending none }) m,
    g.apart n m,
  );
}
start-IsTied true [] fallback s new g = g
start-IsTied true (c ∷ id) fallback s new g =
    let w : Write = record {
      id = c ∷ id;
      fallback = fallback;
      progress = sending (some open_commit);
    } in
    record {
      tied = λ n h. ground (
        arith,
        progress_at-append s.writes w n,
        id_at-append s.writes w n,
        g.tied n,
        new n,
        open_wants (progress_at s.writes n),
        lookup-insert (c ∷ id) (id_at s.writes n) (length s.writes) s.in_flight,
        lookup-insert (c ∷ id) (c ∷ id) (length s.writes) s.in_flight,
        text_eq_iff (c ∷ id) (id_at s.writes n),
        text_eq_iff (c ∷ id) (c ∷ id),
      );
      apart = λ n m h k e. ground (
        arith,
        progress_at-append s.writes w n,
        id_at-append s.writes w n,
        progress_at-append s.writes w m,
        id_at-append s.writes w m,
        g.apart n m,
        new n,
        new m,
      );
    }

step-IsTied : (x : Event) (s : Writes) → IsFresh x s → IsTied s → IsTied (step x s)
unfolding step
step-IsTied (starts confirm id fallback) s new g = start-IsTied confirm id fallback s new g
step-IsTied (is_answered n) s new g = answered-IsTied n s g
step-IsTied (fails n thrown) s new g = failed-IsTied n thrown s g
step-IsTied (write_committed id) s new g = settle_id-IsTied id committed s refl g
step-IsTied (write_error id payload) s new g =
    settle_id-IsTied id (refused (from_server_response payload)) s refl g
step-IsTied connection_lost s new g = lost-IsTied s g

run-IsTied : (xs : List Event) (s : Writes) → AreFresh xs s → IsTied s → IsTied (run xs s)
unfolding run
run-IsTied [] s new g = g
run-IsTied (x ∷ xs) s (new, more) g = run-IsTied xs (step x s) more (step-IsTied x s new g)

-- After any history in which no write gets the id of another that still wants its commit: when the
-- connection is lost, no write waits for its commit any more.
pub run-lost :
    (xs : List Event)
    → AreFresh xs new_writes
    → (n : ℕ) → is_open (progress_at (step connection_lost (run xs new_writes)).writes n) ≡ false
unfolding step
run-lost xs new n =
    lost-closed (run xs new_writes) (run-IsTied xs new_writes new new_writes-IsTied) n
