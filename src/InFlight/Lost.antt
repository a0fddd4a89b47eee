-- ===== src/InFlight/Lost.antt =====
-- What a lost connection and a confirmation do to the writes.
use zyncbase.InFlight.{
  fallback_at, lost_error, new_writes, forget, Write, Writes, Progress, sending, awaiting,
  succeeded, failed_with, Commit, open_commit, committed, refused, progress_at, id_at, set_progress,
  succeed_at, throw_at, await_commit, when_sending, dispatch_failed, settle_commit, reject_each,
  reject_all_in_flight, settle_id, step, Event, starts,
}
use zyncbase.Errors.{to_zync_error, Thrown}
use mathlib.Core.Bool.{true≢false}
use zyncbase.InFlight.Progresses.{wants, is_open, progress-cases}
use zyncbase.InFlight.Commits.{
  Shrinks, Shrinks-self, Shrinks-trans, set-Shrinks, await_commit-Shrinks, settle_commit-Shrinks,
  is_final, promise-closed,
}
use zyncbase.Prelude.{
  ◌≡◌, refl, sym, ap, ◌∙◌, ◌≢◌, inl, inr, ℕ, suc, zero, true, false, Option, none, some, List, [],
  ◌∷◌, Bool-cases, Option-cases,
}
use zyncbase.Prelude.Text.{Text, text_eq, text_eq_iff}
use zyncbase.Prelude.Dict.{Dict, lookup, delete, lookup-delete}

set_progress-closed :
    (ws : List Write) (n : ℕ) (p : Progress)
    → is_open p ≡ false
    → is_open (progress_at (set_progress ws n p) n) ≡ false
unfolding progress_at set_progress
set_progress-closed [] n p h = refl
set_progress-closed (w ∷ ws) zero p h = h
set_progress-closed (w ∷ ws) (suc n) p h = set_progress-closed ws n p h

await_commit-closed :
    (n : ℕ) (commit : Commit) (s : Writes)
    → is_final commit ≡ true
    → is_open (progress_at (await_commit n (some commit) s).writes n) ≡ false
unfolding await_commit succeed_at throw_at
await_commit-closed n open_commit s f = cc
await_commit-closed n committed s f = set_progress-closed s.writes n succeeded refl
await_commit-closed n (refused e) s f = set_progress-closed s.writes n (failed_with e) refl

settle_commit-closed :
    (commit : Commit) (n : ℕ) (s : Writes)
    → is_final commit ≡ true
    → is_open (progress_at (settle_commit commit n s).writes n) ≡ false
unfolding settle_commit
settle_commit-closed commit n s f =
    progress-cases (λ t. is_open (progress_at t.writes n) ≡ false) (progress_at s.writes n) _ _ _ _
      (λ old e. set_progress-closed s.writes n _ (promise-closed commit old f))
      (λ e. await_commit-closed n commit s f) (λ e. rw e refl) (λ x e. rw e refl)

reject_each-Shrinks : (m : Dict ℕ) (s : Writes) → Shrinks s (reject_each m s)
unfolding reject_each
reject_each-Shrinks [] s = Shrinks-self s
reject_each-Shrinks ((id, n) ∷ m) s =
    Shrinks-trans s (settle_commit (refused lost_error) n s) _
      (settle_commit-Shrinks (refused lost_error) n s s refl refl)
      (reject_each-Shrinks m (settle_commit (refused lost_error) n s))

stays_closed :
    (s t : Writes) (n : ℕ)
    → Shrinks s t
    → is_open (progress_at s.writes n) ≡ false
    → is_open (progress_at t.writes n) ≡ false
stays_closed s t n g h = elim (Bool-cases (is_open (progress_at t.writes n))) [
  | inl o ↦ absurd (true≢false (sym (g.opened n o) ∙ h))
  | inr c ↦ c
]

-- Every write of the map is closed.
reject_each-closed :
    (m : Dict ℕ) (s : Writes) (id : Text) (n : ℕ)
    → lookup id m ≡ some n
    → is_open (progress_at (reject_each m s).writes n) ≡ false
unfolding reject_each lookup
reject_each-closed [] s id n h = cc
reject_each-closed ((j, k) ∷ m) s id n h = elim (Bool-cases (text_eq j id)) [
  | inl same ↦
      let g = rw same at h in
      let e : k ≡ n = cc in
      let shut = settle_commit-closed (refused lost_error) k s refl in
      let more = reject_each-Shrinks m (settle_commit (refused lost_error) k s) in
      rw (← e) (stays_closed (settle_commit (refused lost_error) k s) _ k more shut)
  | inr other ↦ reject_each-closed m (settle_commit (refused lost_error) k s) id n (rw other at h)
]

-- Every write whose commit is open is in the map under its id, and no two writes that want a commit
-- have the same id.
pub record IsTied (s : Writes) : Type 0 where
  pub tied :
      (n : ℕ)
      → is_open (progress_at s.writes n) ≡ true
      → lookup (id_at s.writes n) s.in_flight ≡ some n
  pub apart :
      (n m : ℕ)
      → wants (progress_at s.writes n) ≡ true
      → wants (progress_at s.writes m) ≡ true
      → id_at s.writes n ≡ id_at s.writes m
      → n ≡ m

pub new_writes-IsTied : IsTied new_writes
unfolding new_writes progress_at
new_writes-IsTied = record { tied = λ n h. cc; apart = λ n m h k e. cc }

-- A change that keeps the map for the writes that are open after it.
shrunk-IsTied :
    (s t : Writes)
    → IsTied s
    → Shrinks s t
    → ((n : ℕ)
        → is_open (progress_at t.writes n) ≡ true
        → lookup (id_at s.writes n) t.in_flight ≡ lookup (id_at s.writes n) s.in_flight)
    → IsTied t
shrunk-IsTied s t g sh same = record {
  tied = λ n h. rw (sh.named n) (same n h ∙ g.tied n (sh.opened n h));
  apart =
      λ n m h k e. g.apart n m (sh.wanted n h) (sh.wanted m k) (sym (sh.named n) ∙ e ∙ sh.named m);
}

pub open_wants : (p : Progress) → is_open p ≡ true → wants p ≡ true
open_wants (sending (some open_commit)) h = refl
open_wants (sending (some committed)) h = cc
open_wants (sending (some (refused e))) h = cc
open_wants (sending none) h = cc
open_wants awaiting h = refl
open_wants succeeded h = cc
open_wants (failed_with e) h = cc

await_commit-map :
    (n : ℕ) (commit : Option Commit) (s : Writes)
    → (await_commit n commit s).in_flight ≡ s.in_flight
unfolding await_commit succeed_at throw_at
await_commit-map n none s = refl
await_commit-map n (some open_commit) s = refl
await_commit-map n (some committed) s = refl
await_commit-map n (some (refused e)) s = refl

settle_commit-map :
    (commit : Commit) (n : ℕ) (s : Writes) → (settle_commit commit n s).in_flight ≡ s.in_flight
unfolding settle_commit
settle_commit-map commit n s =
    progress-cases (λ t. t.in_flight ≡ s.in_flight) (progress_at s.writes n) _ _ _ _ (λ old e. refl)
      (λ e. await_commit-map n (some commit) s) (λ e. refl) (λ x e. refl)

pub answered-IsTied : (n : ℕ) (s : Writes) → IsTied s → IsTied (when_sending n (await_commit n) s)
unfolding when_sending
answered-IsTied n s g =
    progress-cases IsTied (progress_at s.writes n) _ _ _ _
      (λ commit e.
        shrunk-IsTied s (await_commit n commit s) g
          (await_commit-Shrinks n commit s s (λ c. rw (e, c) refl) (λ c. rw (e, c) refl) refl)
          (λ m h. ap (lookup (id_at s.writes m)) (await_commit-map n commit s)))
      (λ e. g) (λ e. g) (λ x e. g)

-- A write that is open after the promise of another id was settled is not the one of that id.
other_id :
    (commit : Commit) (id : Text) (n m : ℕ) (s t : Writes)
    → is_final commit ≡ true
    → IsTied s
    → t.writes ≡ s.writes
    → lookup id s.in_flight ≡ some n
    → is_open (progress_at s.writes m) ≡ true
    → is_open (progress_at (settle_commit commit n t).writes m) ≡ true
    → text_eq id (id_at s.writes m) ≡ false
other_id commit id n m s t f g same found before after =
    elim (Bool-cases (text_eq id (id_at s.writes m))) [
      | inl e ↦
          let e' = (text_eq_iff id (id_at s.writes m)).0 e in
          let there : lookup id s.in_flight ≡ some m =
            ap (λ k. lookup k s.in_flight) e' ∙ g.tied m before in
          let both : n ≡ m = cc in
          let shut = settle_commit-closed commit n t f in
          absurd (
            true≢false (
              sym after
              ∙ ap (λ k. is_open (progress_at (settle_commit commit n t).writes k)) (sym both)
              ∙ shut))
      | inr other ↦ other
    ]

pub settle_id-IsTied :
    (id : Text) (commit : Commit) (s : Writes)
    → is_final commit ≡ true
    → IsTied s
    → IsTied (settle_id id commit s)
unfolding settle_id
settle_id-IsTied id commit s f g = elim (Option-cases (lookup id s.in_flight)) [
  | inl nobody ↦ rw (nobody, settle_id) g
  | inr (n, found) ↦
      let t = record s { in_flight = delete id s.in_flight } in
      let sh = settle_commit-Shrinks commit n s t f refl in
      rw (found, settle_id)
        (shrunk-IsTied s (settle_commit commit n t) g sh (λ m h.
          ap (lookup (id_at s.writes m)) (settle_commit-map commit n t)
          ∙ rw
              (
                lookup-delete id (id_at s.writes m) s.in_flight,
                other_id commit id n m s t f g refl found (sh.opened m h) h,
              )
              refl))
]

-- A write that failed and forgot its promise leaves the promises of the others.
forget_other :
    (n m : ℕ) (commit : Option Commit) (s : Writes)
    → IsTied s
    → progress_at s.writes n ≡ sending commit
    → is_open (progress_at s.writes m) ≡ true
    → (n ≡ m → ⊥)
    → lookup (id_at s.writes m) (forget commit (id_at s.writes n) s.in_flight)
      ≡ lookup (id_at s.writes m) s.in_flight
unfolding forget
forget_other n m none s g e o ne = refl
forget_other n m (some commit) s g e o ne =
    elim (Bool-cases (text_eq (id_at s.writes n) (id_at s.writes m))) [
      | inl same ↦ absurd (
          ne (
            g.apart n m (rw e refl) (open_wants (progress_at s.writes m) o)
              ((text_eq_iff (id_at s.writes n) (id_at s.writes m)).0 same)))
      | inr other ↦ rw (lookup-delete (id_at s.writes n) (id_at s.writes m) s.in_flight, other) refl
    ]

pub failed-IsTied :
    (n : ℕ) (thrown : Thrown) (s : Writes)
    → IsTied s
    → IsTied (when_sending n (dispatch_failed n thrown) s)
unfolding when_sending dispatch_failed throw_at
failed-IsTied n thrown s g =
    progress-cases IsTied (progress_at s.writes n) _ _ _ _
      (λ commit e.
        let p = failed_with (to_zync_error thrown (fallback_at s.writes n) true) in
        let sh : Shrinks s (record s { writes = set_progress s.writes n p }) =
          set-Shrinks n p s _ (λ h. cc) (λ h. cc) refl in
        shrunk-IsTied s _ g (record { wanted = sh.wanted; opened = sh.opened; named = sh.named })
          (λ m h. forget_other n m commit s g e (sh.opened m h) (λ same. true≢false (
            sym h
            ∙ ap (λ k. is_open (progress_at (set_progress s.writes n p) k)) (sym same)
            ∙ set_progress-closed s.writes n p refl))))
      (λ e. g) (λ e. g) (λ x e. g)

pub lost-closed :
    (s : Writes)
    → IsTied s
    → (n : ℕ) → is_open (progress_at (reject_all_in_flight s).writes n) ≡ false
unfolding reject_all_in_flight
lost-closed s g n = elim (Bool-cases (is_open (progress_at (reject_each s.in_flight s).writes n))) [
  | inl o ↦
      reject_each-closed s.in_flight s (id_at s.writes n) n
        (g.tied n ((reject_each-Shrinks s.in_flight s).opened n o))
  | inr c ↦ c
]

lost_apart :
    (s : Writes)
    → IsTied s
    → (n m : ℕ) → wants (progress_at (reject_all_in_flight s).writes n) ≡ true
    → wants (progress_at (reject_all_in_flight s).writes m) ≡ true
    → id_at (reject_all_in_flight s).writes n ≡ id_at (reject_all_in_flight s).writes m
    → n ≡ m
unfolding reject_all_in_flight
lost_apart s g n m h k e =
    let sh = reject_each-Shrinks s.in_flight s in
    g.apart n m (sh.wanted n h) (sh.wanted m k) (sym (sh.named n) ∙ e ∙ sh.named m)

pub lost-IsTied : (s : Writes) → IsTied s → IsTied (reject_all_in_flight s)
lost-IsTied s g = record {
  tied = λ n h. absurd (true≢false (sym h ∙ lost-closed s g n));
  apart = λ n m h k e. lost_apart s g n m h k e;
}

-- The write id is not that of a write that still wants its commit.
abbrev pub IsNew : Text → Writes → Type 0
IsNew id s = (n : ℕ) → wants (progress_at s.writes n) ≡ true → id_at s.writes n ≢ id

abbrev pub IsFresh : Event → Writes → Type 0
IsFresh (starts true id fallback) s = IsNew id s
IsFresh _ s = Unit {0}

abbrev pub AreFresh : List Event → Writes → Type 0
AreFresh [] s = Unit {0}
AreFresh (x ∷ xs) s = IsFresh x s × AreFresh xs (step x s)
