-- ===== src/Registry/Changes.antt =====
-- What a change of a registration may do to its consumers.
use zyncbase.Registry.{
  Registration, Phase, waiting, holding, released, rejected, Sent, subscribe_sent, unsubscribe_sent,
  load_more_sent, phase_at, settle_all, settle_phase, is_waiting, is_holding, is_some,
}
use mathlib.Core.List.{append-nil}
use mathlib.Core.Bool.{true≢false}
use zyncbase.Registry.Consumers.{is_live, phase_at-append, phase_at-settle_all}
use zyncbase.Prelude.{
  ◌≡◌, refl, sym, ◌⊎◌, inl, inr, ℕ, true, false, List, [], ◌∷◌, ◌++◌, ◌==◌, length, arith,
  Bool-cases, ◌∙◌, ap,
}

-- The subscriptions that were cancelled.
unfoldable pub unsubscribed : List Sent → List ℕ
unsubscribed [] = []
unsubscribed (unsubscribe_sent id ∷ log) = id ∷ unsubscribed log
unsubscribed (subscribe_sent ∷ log) = unsubscribed log
unsubscribed (load_more_sent id cursor ∷ log) = unsubscribed log

unsubscribed-append :
    (xs : List Sent) (x : Sent)
    → unsubscribed (xs ++ x ∷ []) ≡ unsubscribed xs ++ unsubscribed (x ∷ [])
unfolding unsubscribed
unsubscribed-append [] x = refl
unsubscribed-append (unsubscribe_sent id ∷ xs) x = rw (unsubscribed-append xs x) refl
unsubscribed-append (subscribe_sent ∷ xs) x = unsubscribed-append xs x
unsubscribed-append (load_more_sent id cursor ∷ xs) x = unsubscribed-append xs x

-- Nobody waits or holds a handle.
abbrev pub IsDeserted : Registration → Type 0
IsDeserted s = (c : ℕ) → is_live (phase_at s.consumers c) ≡ false

-- Nothing was cancelled on the way from one state to another, or nobody is left.
abbrev pub Spares : Registration → Registration → Type 0
Spares s t = (unsubscribed t.log ≡ unsubscribed s.log) ⊎ IsDeserted t

-- A consumer whose promise resolves on the way gets the handle of a tracked subscription.
abbrev pub Earned : Registration → Registration → Type 0
Earned s t =
    (c : ℕ)
    → is_waiting (phase_at s.consumers c) ≡ true
    → is_holding (phase_at t.consumers c) ≡ true
    → (t.closed ≡ false) × (is_some t.sub_id ≡ true) × (t.tracked ≡ true)

pub record IsSafe (s t : Registration) : Type 0 where
  pub spares : Spares s t
  pub earned : Earned s t

pub log_quiet :
    (log : List Sent) (x : Sent)
    → unsubscribed (x ∷ []) ≡ []
    → unsubscribed (log ++ x ∷ []) ≡ unsubscribed log
log_quiet log x h = rw (unsubscribed-append log x, h) (append-nil (unsubscribed log))

pub not_both : (p : Phase) {A : Type 0} → is_waiting p ≡ true → is_holding p ≡ true → A
not_both waiting w h = cc
not_both holding w h = cc
not_both released w h = cc
not_both rejected w h = cc

-- Consumers and cancelled subscriptions stay as they are.
pub calm :
    (s t : Registration)
    → t.consumers ≡ s.consumers
    → unsubscribed t.log ≡ unsubscribed s.log
    → IsSafe s t
calm s t same quiet = record {
  spares = inl quiet;
  earned = λ c w h. not_both (phase_at s.consumers c) w (rw same at h);
}

-- Nothing waited.
pub ended :
    (s t : Registration)
    → Spares s t
    → ((c : ℕ) → is_waiting (phase_at s.consumers c) ≡ false)
    → IsSafe s t
ended s t spared calm_ = record {
  spares = spared;
  earned = λ c w h. absurd (true≢false (sym w ∙ calm_ c));
}

phase_at-length : (ps : List Phase) → phase_at ps (length ps) ≡ released
unfolding phase_at
phase_at-length [] = refl
phase_at-length (p ∷ ps) = phase_at-length ps

-- One more consumer came.
pub grown :
    (p : Phase) (s t : Registration)
    → t.consumers ≡ s.consumers ++ p ∷ []
    → unsubscribed t.log ≡ unsubscribed s.log
    → IsSafe s t
grown p s t more quiet = record {
  spares = inl quiet;
  earned = λ c w h. elim (Bool-cases (c == length s.consumers)) [
    | inl new ↦
        let e : c ≡ length s.consumers = ground arith in
        absurd (
          true≢false
            (sym w ∙ ap is_waiting (ap (phase_at s.consumers) e ∙ phase_at-length s.consumers)))
    | inr old ↦
        not_both (phase_at s.consumers c) w (rw (more, phase_at-append s.consumers p c, old) at h)
  ];
}

waiting-live : (p : Phase) → is_live p ≡ false → is_waiting p ≡ false
waiting-live waiting h = cc
waiting-live holding h = refl
waiting-live released h = refl
waiting-live rejected h = refl

pub deserted : (s t : Registration) → Spares s t → IsDeserted s → IsSafe s t
deserted s t spared nobody =
    ended s t spared (λ c. waiting-live (phase_at s.consumers c) (nobody c))

dead-settle : (p q : Phase) → is_live q ≡ false → is_live (settle_phase p q) ≡ false
dead-settle p waiting h = cc
dead-settle p holding h = cc
dead-settle p released h = refl
dead-settle p rejected h = refl

pub settle-nobody :
    (p : Phase) (ps : List Phase)
    → ((c : ℕ) → is_live (phase_at ps c) ≡ false)
    → (c : ℕ) → is_live (phase_at (settle_all p ps) c) ≡ false
settle-nobody p ps nobody c =
    rw (phase_at-settle_all p ps c) (dead-settle p (phase_at ps c) (nobody c))
