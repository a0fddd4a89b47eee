-- ===== src/Registry/Consumers.antt =====
-- Who is there, after a consumer came, left or was settled.
use zyncbase.Registry.{
  Phase, waiting, holding, released, phase_at, set_phase, settle_all, settle_phase, remove_callback,
  settled_callbacks, is_waiting, is_holding,
}
use zyncbase.Prelude.{
  ◌≡◌, refl, ℕ, suc, zero, Bool, true, false, ◌||◌, List, [], ◌∷◌, ◌++◌, ◌==◌, length, arith,
  if◌then◌else◌,
}

-- The consumer waits for its handle or holds it.
abbrev pub is_live : Phase → Bool
is_live waiting = true
is_live holding = true
is_live _ = false

unfoldable pub contains : ℕ → List ℕ → Bool
contains c [] = false
contains c (d ∷ ds) = d == c || contains c ds

pub phase_at-append :
    (ps : List Phase) (p : Phase) (c : ℕ)
    → phase_at (ps ++ p ∷ []) c ≡ (if c == length ps then p else phase_at ps c)
unfolding phase_at
phase_at-append [] p zero = refl
phase_at-append [] p (suc c) = ground arith
phase_at-append (q ∷ ps) p zero = ground arith
phase_at-append (q ∷ ps) p (suc c) = ground (arith, phase_at-append ps p c)

pub phase_at-settle_all :
    (p : Phase) (ps : List Phase) (c : ℕ)
    → phase_at (settle_all p ps) c ≡ settle_phase p (phase_at ps c)
unfolding phase_at settle_all
phase_at-settle_all p [] c = refl
phase_at-settle_all p (q ∷ ps) zero = refl
phase_at-settle_all p (q ∷ ps) (suc c) = phase_at-settle_all p ps c

-- The phase of a consumer that is released.
pub is_live-set_phase :
    (ps : List Phase) (c d : ℕ)
    → is_live (phase_at (set_phase ps c released) d)
      ≡ (if c == d then false else is_live (phase_at ps d))
unfolding phase_at set_phase
is_live-set_phase [] c d = ground arith
is_live-set_phase (q ∷ ps) zero zero = ground arith
is_live-set_phase (q ∷ ps) zero (suc d) = ground arith
is_live-set_phase (q ∷ ps) (suc c) zero = ground arith
is_live-set_phase (q ∷ ps) (suc c) (suc d) = ground (arith, is_live-set_phase ps c d)

pub is_waiting-set_phase :
    (ps : List Phase) (c d : ℕ)
    → is_waiting (phase_at (set_phase ps c released) d)
      ≡ (if c == d then false else is_waiting (phase_at ps d))
unfolding phase_at set_phase
is_waiting-set_phase [] c d = ground arith
is_waiting-set_phase (q ∷ ps) zero zero = ground arith
is_waiting-set_phase (q ∷ ps) zero (suc d) = ground arith
is_waiting-set_phase (q ∷ ps) (suc c) zero = ground arith
is_waiting-set_phase (q ∷ ps) (suc c) (suc d) = ground (arith, is_waiting-set_phase ps c d)

pub is_holding-set_phase :
    (ps : List Phase) (c d : ℕ)
    → is_holding (phase_at (set_phase ps c released) d)
      ≡ (if c == d then false else is_holding (phase_at ps d))
unfolding phase_at set_phase
is_holding-set_phase [] c d = ground arith
is_holding-set_phase (q ∷ ps) zero zero = ground arith
is_holding-set_phase (q ∷ ps) zero (suc d) = ground arith
is_holding-set_phase (q ∷ ps) (suc c) zero = ground arith
is_holding-set_phase (q ∷ ps) (suc c) (suc d) = ground (arith, is_holding-set_phase ps c d)

pub contains-append :
    (cs : List ℕ) (d c : ℕ) → contains c (cs ++ d ∷ []) ≡ (contains c cs || d == c)
unfolding contains
contains-append [] d c = ground arith
contains-append (e ∷ cs) d c = ground (arith, contains-append cs d c)

pub contains-without :
    (c : ℕ) (cs : List ℕ) (d : ℕ)
    → contains d (remove_callback c cs) ≡ (if c == d then false else contains d cs)
unfolding contains remove_callback
contains-without c [] d = ground arith
contains-without c (e ∷ cs) d = ground (arith, contains-without c cs d)

pub contains-settled_callbacks :
    (ps : List Phase) (cs : List ℕ) (d : ℕ)
    → is_waiting (phase_at ps d) ≡ false
    → contains d (settled_callbacks ps cs) ≡ contains d cs
unfolding contains settled_callbacks
contains-settled_callbacks ps [] d h = refl
contains-settled_callbacks ps (e ∷ cs) d h = ground (arith, contains-settled_callbacks ps cs d h)
