-- ===== src/Registry/Cases.antt =====
-- What holds of both branches of a test, of each state of a loop, or with and without a value, holds
-- of the whole.
use zyncbase.Registry.{Registration, Loop, idle, parked, sent}
use zyncbase.Prelude.{◌≡◌, refl, ℕ, Bool, true, false, Option, none, some, if◌then◌else◌}

module _ (P : Registration → Type 0) where
  pub if-holds :
      (b : Bool) (s t : Registration)
      → (b ≡ true → P s)
      → (b ≡ false → P t)
      → P (if b then s else t)
  if-holds true s t f g = f refl
  if-holds false s t f g = g refl

  pub loop-holds :
      (l : Loop) (s t : Registration) (u : ℕ → Registration)
      → (l ≡ idle → P s)
      → (l ≡ parked → P t)
      → ((gen : ℕ) → l ≡ sent gen → P (u gen))
      → P (elim l [ idle ↦ s | parked ↦ t | sent gen ↦ u gen ])
  loop-holds idle s t u f g h = f refl
  loop-holds parked s t u f g h = g refl
  loop-holds (sent gen) s t u f g h = h gen refl

  pub option-holds :
      {A : Type 0} (o : Option A) (s : Registration) (t : A → Registration)
      → P s
      → ((a : A) → P (t a))
      → P (elim o [ none ↦ s | some a ↦ t a ])
  option-holds none s t f g = f
  option-holds (some a) s t f g = g a
