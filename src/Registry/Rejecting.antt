-- ===== src/Registry/Rejecting.antt =====
-- The invariant of a registration, through a disconnect.
use zyncbase.Registry.{
  Registration, Phase, waiting, holding, released, rejected, phase_at, settle_all, settle_phase,
  settled_callbacks, is_waiting, is_empty, reject_waiting, reject_pending,
}
use zyncbase.Registry.Cases.{if-holds}
use zyncbase.Registry.Consumers.{is_live, contains, phase_at-settle_all, contains-settled_callbacks}
use zyncbase.Prelude.{◌≡◌, refl, ℕ, true, false, not, ◌&&◌, List, [], ◌∷◌, arith, ◌∙◌}
use zyncbase.Registry.Invariant.{IsSound, nobody_of_empty}
use zyncbase.Registry.Establishing.{wake-IsSound}
use zyncbase.Registry.Leaving.{teardown-IsSound}

settle-live :
    (q : Phase)
    → is_live (settle_phase rejected q) ≡ true
    → (is_live q ≡ true) × (is_waiting q ≡ false)
settle-live waiting h = cc
settle-live holding h = (refl, refl)
settle-live released h = cc
settle-live rejected h = cc

reject_attached :
    (s : Registration)
    → IsSound s
    → s.closed ≡ false
    → (c : ℕ) → is_live (phase_at (settle_all rejected s.consumers) c) ≡ true
    → contains c (settled_callbacks s.consumers s.callbacks) ≡ true
reject_attached s g o c h =
    let (live, calm) =
      settle-live (phase_at s.consumers c) (rw (phase_at-settle_all rejected s.consumers c) at h) in
    contains-settled_callbacks s.consumers s.callbacks c calm ∙ g.attached o c live

settled_callbacks-empty :
    (ps : List Phase) (cs : List ℕ) → is_empty cs ≡ true → is_empty (settled_callbacks ps cs) ≡ true
unfolding settled_callbacks
settled_callbacks-empty ps [] h = h
settled_callbacks-empty ps (c ∷ cs) h = cc

pub reject_waiting-IsSound : (s : Registration) → IsSound s → IsSound (reject_waiting s)
unfolding reject_waiting
reject_waiting-IsSound s g = record {
  attached = λ o i l. reject_attached s g o i l;
  settled = λ o i. ground (arith, phase_at-settle_all rejected s.consumers i);
  abandoned =
      λ o r i. ground (arith, phase_at-settle_all rejected s.consumers i, g.abandoned o r i);
  timed = λ t.
      (settled_callbacks-empty s.consumers s.callbacks (g.timed t).0, (g.timed t).1, (g.timed t).2);
  awaited = λ i w. ground (arith, phase_at-settle_all rejected s.consumers i);
}

pub reject_pending-IsSound : (s : Registration) → IsSound s → IsSound (reject_pending s)
unfolding reject_pending
reject_pending-IsSound s g =
    let r = reject_waiting-IsSound s g in
    wake-IsSound _ (
      if-holds IsSound (not s.closed && is_empty (reject_waiting s).callbacks) _ _
        (λ h.
          teardown-IsSound (reject_waiting s)
            (nobody_of_empty (reject_waiting s) r (ground arith) (ground arith)))
        (λ h. r))
