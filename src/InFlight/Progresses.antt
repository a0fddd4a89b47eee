-- ===== src/InFlight/Progresses.antt =====
-- Where a write stands after a change.
use zyncbase.InFlight.{
  Write, Writes, Progress, sending, awaiting, succeeded, failed_with, Commit, open_commit,
  progress_at, id_at, set_progress,
}
use zyncbase.Errors.{ZyncBaseError}
use zyncbase.Prelude.{
  ◌≡◌, refl, ℕ, suc, zero, Bool, true, false, Option, some, List, [], ◌∷◌, ◌++◌, ◌==◌, length,
  arith, if◌then◌else◌,
}

-- The write has a commit promise that it may still look at.
abbrev pub wants : Progress → Bool
wants (sending (some commit)) = true
wants awaiting = true
wants _ = false

-- The commit promise of the write is not settled.
abbrev pub is_open : Progress → Bool
is_open (sending (some open_commit)) = true
is_open awaiting = true
is_open _ = false

pub progress_at-set_progress :
    (ws : List Write) (n : ℕ) (p : Progress)
    → wants (progress_at ws n) ≡ true
    → progress_at (set_progress ws n p) n ≡ p
unfolding progress_at set_progress
progress_at-set_progress [] n p h = cc
progress_at-set_progress (w ∷ ws) zero p h = refl
progress_at-set_progress (w ∷ ws) (suc n) p h = progress_at-set_progress ws n p h

pub progress_at-set_progress_ne :
    (ws : List Write) (n m : ℕ) (p : Progress)
    → (n == m) ≡ false
    → progress_at (set_progress ws n p) m ≡ progress_at ws m
unfolding progress_at set_progress
progress_at-set_progress_ne [] n m p h = refl
progress_at-set_progress_ne (w ∷ ws) zero zero p h = cc
progress_at-set_progress_ne (w ∷ ws) zero (suc m) p h = refl
progress_at-set_progress_ne (w ∷ ws) (suc n) zero p h = refl
progress_at-set_progress_ne (w ∷ ws) (suc n) (suc m) p h =
    progress_at-set_progress_ne ws n m p (ground arith)

pub id_at-set_progress :
    (ws : List Write) (n m : ℕ) (p : Progress) → id_at (set_progress ws n p) m ≡ id_at ws m
unfolding id_at set_progress
id_at-set_progress [] n m p = refl
id_at-set_progress (w ∷ ws) zero zero p = refl
id_at-set_progress (w ∷ ws) zero (suc m) p = refl
id_at-set_progress (w ∷ ws) (suc n) zero p = refl
id_at-set_progress (w ∷ ws) (suc n) (suc m) p = id_at-set_progress ws n m p

pub progress_at-append :
    (ws : List Write) (w : Write) (m : ℕ)
    → progress_at (ws ++ w ∷ []) m ≡ (if m == length ws then w.progress else progress_at ws m)
unfolding progress_at
progress_at-append [] w zero = ground arith
progress_at-append [] w (suc m) = ground arith
progress_at-append (v ∷ ws) w zero = ground arith
progress_at-append (v ∷ ws) w (suc m) = ground (arith, progress_at-append ws w m)

pub id_at-append :
    (ws : List Write) (w : Write) (m : ℕ)
    → id_at (ws ++ w ∷ []) m ≡ (if m == length ws then w.id else id_at ws m)
unfolding id_at
id_at-append [] w zero = ground arith
id_at-append [] w (suc m) = ground arith
id_at-append (v ∷ ws) w zero = ground arith
id_at-append (v ∷ ws) w (suc m) = ground (arith, id_at-append ws w m)

-- What holds of every state of a write holds of the whole.
module _ (P : Writes → Type 0) where
  pub progress-cases :
      (q : Progress) (a : Option Commit → Writes) (b c : Writes) (d : ZyncBaseError → Writes)
      → ((commit : Option Commit) → q ≡ sending commit → P (a commit))
      → (q ≡ awaiting → P b)
      → (q ≡ succeeded → P c)
      → ((e : ZyncBaseError) → q ≡ failed_with e → P (d e))
      → P (elim q [
        | sending commit ↦ a commit
        | awaiting ↦ b
        | succeeded ↦ c
        | failed_with e ↦ d e
      ])
  progress-cases (sending commit) a b c d f g h k = f commit refl
  progress-cases awaiting a b c d f g h k = g refl
  progress-cases succeeded a b c d f g h k = h refl
  progress-cases (failed_with e) a b c d f g h k = k e refl
