-- ===== src/Prelude/Table.antt =====
-- A JavaScript `Map` with numbers for keys: an association list in insertion order.
use Prim.Native.Nat.{ℕ}
use mathlib.Core.Path.{◌≡◌, refl}
use mathlib.Core.Option.{Option, none, some}
use mathlib.Core.List.{List, [], ◌∷◌}
use native.Mathlib.Omega.{arith}
use zyncbase.Prelude.Tests.{if◌then◌else◌, ◌==◌}

module _ {ℓ} {C : Type ℓ} where
  -- `map.get(key)`
  unfoldable pub find : ℕ → List (ℕ × C) → Option C
  find id [] = none
  find id ((k, c) ∷ es) = if k == id then some c else find id es

  -- `Map.delete`
  unfoldable pub remove : ℕ → List (ℕ × C) → List (ℕ × C)
  remove id [] = []
  remove id ((k, c) ∷ es) = if k == id then es else (k, c) ∷ remove id es

  -- `Map.set`
  unfoldable pub put : ℕ → C → List (ℕ × C) → List (ℕ × C)
  put id c [] = (id, c) ∷ []
  put id c ((k, d) ∷ es) = if k == id then (k, c) ∷ es else (k, d) ∷ put id c es

  pub find-put :
      (k j : ℕ) (v : C) (m : List (ℕ × C))
      → find j (put k v m) ≡ (if k == j then some v else find j m)
  unfolding find put
  find-put k j v [] = refl
  find-put k j v ((i, w) ∷ m) = ground (arith, find-put k j v m)
