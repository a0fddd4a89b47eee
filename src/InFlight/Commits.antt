-- ===== src/InFlight/Commits.antt =====
-- The map of the commit promises holds every write whose commit is open.
use mathlib.Core.Bool.{true≢false}
use zyncbase.InFlight.{
  Write, Writes, Progress, sending, awaiting, succeeded, failed_with, Commit, open_commit,
  committed, refused, progress_at, id_at, set_progress, succeed_at, throw_at, await_commit,
  settle_promise, settle_commit,
}
use zyncbase.InFlight.Progresses.{
  wants, is_open, progress-cases, progress_at-set_progress_ne, id_at-set_progress,
}
use zyncbase.Prelude.{
  ◌≡◌, refl, sym, ap, ◌∙◌, ◌⊎◌, inl, inr, ℕ, suc, zero, Bool, true, false, Option, none, some, List,
  [], ◌∷◌, ◌==◌, arith, Bool-cases,
}

-- No write begins to want a commit, or opens one again.
pub record Shrinks (s t : Writes) : Type 0 where
  pub wanted :
      (m : ℕ) → wants (progress_at t.writes m) ≡ true → wants (progress_at s.writes m) ≡ true
  pub opened :
      (m : ℕ) → is_open (progress_at t.writes m) ≡ true → is_open (progress_at s.writes m) ≡ true
  pub named : (m : ℕ) → id_at t.writes m ≡ id_at s.writes m

pub Shrinks-self : (s : Writes) → Shrinks s s
Shrinks-self s = record { wanted = λ m h. h; opened = λ m h. h; named = λ m. refl }

pub Shrinks-trans : (s t u : Writes) → Shrinks s t → Shrinks t u → Shrinks s u
Shrinks-trans s t u f g = record {
  wanted = λ m h. f.wanted m (g.wanted m h);
  opened = λ m h. f.opened m (g.opened m h);
  named = λ m. g.named m ∙ f.named m;
}

set_progress-cases :
    (ws : List Write) (n : ℕ) (p : Progress)
    → (progress_at (set_progress ws n p) n ≡ p)
      ⊎ (progress_at (set_progress ws n p) n ≡ progress_at ws n)
unfolding progress_at set_progress
set_progress-cases [] n p = inr refl
set_progress-cases (w ∷ ws) zero p = inl refl
set_progress-cases (w ∷ ws) (suc n) p = set_progress-cases ws n p

-- A test that holds of a changed write held of it before.
set_progress-test :
    (test : Progress → Bool) (ws : List Write) (n : ℕ) (p : Progress)
    → (test p ≡ true → test (progress_at ws n) ≡ true)
    → (m : ℕ) → test (progress_at (set_progress ws n p) m) ≡ true
    → test (progress_at ws m) ≡ true
set_progress-test test ws n p f m h = elim (Bool-cases (n == m)) [
  | inl e ↦
      let e' : m ≡ n = ground arith in
      let h' = rw e' at h in
      rw e' (elim (set_progress-cases ws n p) [
        | inl new ↦ f (sym (ap test new) ∙ h')
        | inr old ↦ sym (ap test old) ∙ h'
      ])
  | inr other ↦ sym (ap test (progress_at-set_progress_ne ws n m p other)) ∙ h
]

pub set-Shrinks :
    (n : ℕ) (p : Progress) (s t : Writes)
    → (wants p ≡ true → wants (progress_at s.writes n) ≡ true)
    → (is_open p ≡ true → is_open (progress_at s.writes n) ≡ true)
    → t.writes ≡ set_progress s.writes n p
    → Shrinks s t
set-Shrinks n p s t f g same = record {
  wanted = λ m h. set_progress-test wants s.writes n p f m (rw same at h);
  opened = λ m h. set_progress-test is_open s.writes n p g m (rw same at h);
  named = λ m. rw same (id_at-set_progress s.writes n m p);
}

pub await_commit-Shrinks :
    (n : ℕ) (commit : Option Commit) (s t : Writes)
    → (commit ≡ some open_commit → is_open (progress_at s.writes n) ≡ true)
    → (commit ≡ some open_commit → wants (progress_at s.writes n) ≡ true)
    → t.writes ≡ s.writes
    → Shrinks s (await_commit n commit t)
unfolding await_commit succeed_at throw_at
await_commit-Shrinks n none s t o w same =
    set-Shrinks n succeeded s _ (λ h. cc) (λ h. cc) (ap (λ ws. set_progress ws n succeeded) same)
await_commit-Shrinks n (some open_commit) s t o w same =
    set-Shrinks n awaiting s _ (λ h. w refl) (λ h. o refl)
      (ap (λ ws. set_progress ws n awaiting) same)
await_commit-Shrinks n (some committed) s t o w same =
    set-Shrinks n succeeded s _ (λ h. cc) (λ h. cc) (ap (λ ws. set_progress ws n succeeded) same)
await_commit-Shrinks n (some (refused e)) s t o w same =
    set-Shrinks n (failed_with e) s _ (λ h. cc) (λ h. cc)
      (ap (λ ws. set_progress ws n (failed_with e)) same)

abbrev pub is_final : Commit → Bool
is_final open_commit = false
is_final _ = true

final-open : (commit : Commit) → is_final commit ≡ true → some commit ≡ some open_commit → ⊥
final-open open_commit f e = true≢false (sym f)
final-open committed f e = cc
final-open (refused x) f e = cc

promise-wants :
    (commit : Commit) (old : Option Commit)
    → wants (sending (settle_promise commit old)) ≡ true
    → wants (sending old) ≡ true
unfolding settle_promise
promise-wants commit none h = h
promise-wants commit (some old) h = refl

pub promise-closed :
    (commit : Commit) (old : Option Commit)
    → is_final commit ≡ true
    → is_open (sending (settle_promise commit old)) ≡ false
unfolding settle_promise
promise-closed open_commit old f = cc
promise-closed commit none f = refl
promise-closed committed (some open_commit) f = refl
promise-closed (refused e) (some open_commit) f = refl
promise-closed commit (some committed) f = refl
promise-closed commit (some (refused e)) f = refl

pub settle_commit-Shrinks :
    (commit : Commit) (n : ℕ) (s t : Writes)
    → is_final commit ≡ true
    → t.writes ≡ s.writes
    → Shrinks s (settle_commit commit n t)
unfolding settle_commit
settle_commit-Shrinks commit n s t f same =
    progress-cases (Shrinks s) (progress_at t.writes n) _ _ _ _
      (λ old e.
        set-Shrinks n (sending (settle_promise commit old)) s _
          (λ h. rw (← same, e) (promise-wants commit old h))
          (λ h. absurd (true≢false (sym h ∙ promise-closed commit old f)))
          (ap (λ ws. set_progress ws n (sending (settle_promise commit old))) same))
      (λ e.
        await_commit-Shrinks n (some commit) s t (λ o. absurd (final-open commit f o))
          (λ o. absurd (final-open commit f o)) same)
      (λ e. record {
        wanted = λ m h. rw same at h;
        opened = λ m h. rw same at h;
        named = λ m. rw same refl;
      })
      (λ x e. record {
        wanted = λ m h. rw same at h;
        opened = λ m h. rw same at h;
        named = λ m. rw same refl;
      })
