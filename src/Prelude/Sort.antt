-- ===== src/Prelude/Sort.antt =====
-- `sorted(xs)` over a key type: stable insertion.
use mathlib.Core.Path.{◌≡◌, refl}
use mathlib.Core.Bool.{Bool, false, ◌||◌}
use mathlib.Core.List.{List, [], ◌∷◌}
use native.Mathlib.Omega.{arith}
use threlium.Prelude.Tests.{if◌then◌else◌}
use threlium.Prelude.Keys.{Key}

module _ {ℓ} {K : Type ℓ} ⦃e : Key K⦄ where
  unfoldable pub insert : K → List K → List K
  insert x [] = x ∷ []
  insert x (y ∷ ys) = if e.le x y then x ∷ y ∷ ys else y ∷ insert x ys

  unfoldable pub sorted : List K → List K
  unfolding insert
  sorted [] = []
  sorted (x ∷ xs) = insert x (sorted xs)

  unfoldable pub contains : K → List K → Bool
  contains k [] = false
  contains k (x ∷ xs) = e.beq x k || contains k xs

  pub contains-insert :
      (k x : K) (xs : List K) → contains k (insert x xs) ≡ (e.beq x k || contains k xs)
  unfolding contains insert
  contains-insert k x [] = refl
  contains-insert k x (y ∷ ys) = ground (arith, contains-insert k x ys)

  pub contains-sorted : (k : K) (xs : List K) → contains k (sorted xs) ≡ contains k xs
  unfolding contains sorted
  contains-sorted k [] = refl
  contains-sorted k (x ∷ xs) = ground (arith, contains-insert k x (sorted xs), contains-sorted k xs)
