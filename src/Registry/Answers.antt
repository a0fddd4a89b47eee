-- ===== src/Registry/Answers.antt =====
-- What an ack and a disconnect settle.
use zyncbase.Registry.{
  Kind, is_subscribe, listen, subscribe, adopt, Registration, Phase, waiting, holding, released,
  rejected, sent, phase_at, settle_all, settle_phase, is_waiting, is_empty, end_loop, advance, wake,
  teardown, accept_ack, acknowledged, reject_waiting, reject_pending, new_registration, may_send,
}
use zyncbase.Registry.Safety.{teardown-consumers}
use zyncbase.Registry.Steps.{Input, ack, step, answered, run}
use zyncbase.Registry.Cases.{if-holds, loop-holds}
use zyncbase.Registry.Consumers.{is_live, phase_at-settle_all}
use zyncbase.Registry.Invariant.{IsSound, nobody_of_empty}
use zyncbase.Registry.Histories.{run_new-IsSound}
use zyncbase.Prelude.{
  ◌≡◌, refl, sym, ap, ◌∙◌, ℕ, Bool, true, false, not, ◌&&◌, Option, some, List, ◌==◌, arith, ◌⊎◌,
  inl, inr,
}
use zyncbase.Prelude.Text.{Text}
use mathlib.Core.Bool.{true≢false}

-- A registration of a query takes the cursor of the ack, another one keeps what it had.
abbrev pub HasCursor : Registration → Option Text → Bool → Registration → Type 0
HasCursor s cursor more t =
    ((s.kind ≡ subscribe) × (t.next_cursor ≡ cursor) × (t.has_more ≡ more))
    ⊎ ((s.kind ≡ listen) × (t.next_cursor ≡ s.next_cursor) × (t.has_more ≡ s.has_more))

-- The consumer has its handle, and the registration its subscription.
abbrev pub IsServed : Registration → ℕ → ℕ → Option Text → Bool → Registration → Type 0
IsServed s c id cursor more t =
    (phase_at t.consumers c ≡ holding)
    × (t.sub_id ≡ some id)
    × HasCursor s cursor more t
    × (t.tracked ≡ true)
    × (t.closed ≡ false)

adopt-HasCursor :
    (id : ℕ) (cursor : Option Text) (more : Bool) (s : Registration) (k : Kind)
    → s.kind ≡ k
    → HasCursor s cursor more (adopt id cursor more s)
unfolding adopt
adopt-HasCursor id cursor more s listen e = inr (e, ground arith, ground arith)
adopt-HasCursor id cursor more s subscribe e = inl (e, ground arith, ground arith)

waiting-settled : (p q : Phase) → is_waiting q ≡ true → settle_phase p q ≡ p
waiting-settled p waiting w = refl
waiting-settled p holding w = cc
waiting-settled p released w = cc
waiting-settled p rejected w = cc

live_of_waiting : (p : Phase) → is_waiting p ≡ true → is_live p ≡ true
live_of_waiting waiting w = refl
live_of_waiting holding w = cc
live_of_waiting released w = cc
live_of_waiting rejected w = cc

module _ (s : Registration) (g : IsSound s) (c : ℕ)
    (w : is_waiting (phase_at s.consumers c) ≡ true) where
  not_closed : s.closed ≡ true → ⊥
  not_closed shut = true≢false (sym w ∙ g.settled shut c)

  not_left : s.closed ≡ false → is_empty s.callbacks ≡ true → ⊥
  not_left o e =
      true≢false (sym (live_of_waiting (phase_at s.consumers c) w) ∙ nobody_of_empty s g o e c)

  accept-IsServed :
      (builds : Bool) (id : ℕ) (cursor : Option Text) (more : Bool)
      → s.closed ≡ false
      → (s.kind ≡ listen) ⊎ (builds ≡ true)
      → IsServed s c id cursor more (accept_ack builds s.scope_gen id cursor more s)
  unfolding accept_ack end_loop adopt
  accept-IsServed builds id cursor more o fits =
      if-holds (IsServed s c id cursor more) (is_subscribe s.kind && not builds) _ _
        (λ thrown. absurd (ground arith))
        (λ built. (
          phase_at-settle_all holding s.consumers c
              ∙ waiting-settled holding (phase_at s.consumers c) w,
          refl,
          adopt-HasCursor id cursor more s s.kind refl,
          refl,
          o,
        ))

  acknowledged-IsServed :
      (builds : Bool) (id : ℕ) (cursor : Option Text) (more : Bool)
      → (s.kind ≡ listen) ⊎ (builds ≡ true)
      → IsServed s c id cursor more (acknowledged builds s.scope_gen id cursor more s)
  unfolding acknowledged
  acknowledged-IsServed builds id cursor more fits =
      if-holds (IsServed s c id cursor more) s.closed _ _ (λ shut. absurd (not_closed shut))
        (λ o.
          if-holds (IsServed s c id cursor more) (not (s.scope_gen == s.scope_gen)) _ _
            (λ stale. ground arith)
            (λ fresh.
              if-holds (IsServed s c id cursor more) (is_empty s.callbacks) _ _
                (λ e. absurd (not_left o e)) (λ e. accept-IsServed builds id cursor more o fits)))

-- After any history of a new registration whose message went out in the present generation: an ack
-- gives every consumer that waits its handle, if the registration is no query or its comparator
-- builds; it is open and tracked with the subscription of the ack, and a query has its cursor.
pub ack-IsServed :
    (xs : List Input) (k : Kind) (r : Bool) (gen switches : ℕ) (c : ℕ) (builds : Bool) (id : ℕ)
    (cursor : Option Text) (more : Bool)
    → is_waiting (phase_at (run xs (new_registration k r gen switches)).consumers c) ≡ true
    → (run xs (new_registration k r gen switches)).loop
      ≡ sent (run xs (new_registration k r gen switches)).scope_gen
    → ((run xs (new_registration k r gen switches)).kind ≡ listen) ⊎ (builds ≡ true)
    → IsServed
        (run xs (new_registration k r gen switches))
        c
        id
        cursor
        more
        (step (ack builds id cursor more) (run xs (new_registration k r gen switches)))
unfolding step answered
ack-IsServed xs k r gen switches c builds id cursor more w l fits =
    let s = run xs (new_registration k r gen switches) in
    rw l
      (acknowledged-IsServed s (run_new-IsSound xs k r gen switches) c w builds id cursor more fits)

nothing_waits : (p q : Phase) → is_waiting p ≡ false → is_waiting (settle_phase p q) ≡ false
nothing_waits p waiting h = h
nothing_waits p holding h = refl
nothing_waits p released h = refl
nothing_waits p rejected h = refl

settle_all-waiting :
    (p : Phase) (ps : List Phase) (c : ℕ)
    → is_waiting p ≡ false
    → is_waiting (phase_at (settle_all p ps) c) ≡ false
settle_all-waiting p ps c h = rw (phase_at-settle_all p ps c) (nothing_waits p (phase_at ps c) h)

abbrev pub NothingWaits : Registration → Type 0
NothingWaits t = (c : ℕ) → is_waiting (phase_at t.consumers c) ≡ false

wake-NothingWaits : (s : Registration) → NothingWaits s → NothingWaits (wake s)
unfolding wake advance end_loop
wake-NothingWaits s calm =
    loop-holds NothingWaits s.loop _ _ _ (λ e. calm)
      (λ e.
        if-holds NothingWaits s.closed _ _ (λ shut c. settle_all-waiting holding s.consumers c refl)
          (λ o. if-holds NothingWaits (may_send s) _ _ (λ m. calm) (λ m. calm)))
      (λ gen e. calm)

-- A disconnect leaves no promise unsettled.
pub reject_pending-NothingWaits : (s : Registration) → NothingWaits (reject_pending s)
unfolding reject_pending reject_waiting
reject_pending-NothingWaits s =
    let calm : NothingWaits (reject_waiting s) =
      λ c. settle_all-waiting rejected s.consumers c refl in
    let torn : NothingWaits (teardown (reject_waiting s)) =
      λ c. ap (λ ps. is_waiting (phase_at ps c)) (teardown-consumers (reject_waiting s)) ∙ calm c in
    if-holds (λ t. NothingWaits (wake t)) (not s.closed && is_empty (reject_waiting s).callbacks) _
      _ (λ h. wake-NothingWaits (teardown (reject_waiting s)) torn)
      (λ h. wake-NothingWaits (reject_waiting s) calm)
