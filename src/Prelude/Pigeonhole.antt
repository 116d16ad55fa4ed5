-- ===== src/Prelude/Pigeonhole.antt =====
-- A list without repetition is no longer than a list that holds all its elements.
use mathlib.Core.Path.{◌≡◌}
use mathlib.Core.Bool.{true, false}
use mathlib.Core.List.{List, [], ◌∷◌}
use Prim.Native.Nat.{suc, ◌≤◌}
use native.Mathlib.Omega.{arith}
use threlium.Prelude.Tests.{if◌then◌else◌}
use threlium.Prelude.Lists.{length}
use threlium.Prelude.Keys.{Key, Key-refl}
use threlium.Prelude.Sort.{contains}
use threlium.Prelude.Distinct.{distinct}

module _ {ℓ} {K : Type ℓ} ⦃e : Key K⦄ where
  delete : K → List K → List K
  delete x [] = []
  delete x (y ∷ ys) = if e.beq y x then ys else y ∷ delete x ys

  length-delete :
      (x : K) (ys : List K) → contains x ys ≡ true → length ys ≡ suc (length (delete x ys))
  unfolding contains delete
  length-delete x [] h = cc
  length-delete x (y ∷ ys) h = ground (arith, length-delete x ys)

  contains-delete :
      (x k : K) (ys : List K)
      → e.beq x k ≡ false
      → contains k ys ≡ true
      → contains k (delete x ys) ≡ true
  unfolding contains delete
  contains-delete x k [] n h = h
  contains-delete x k (y ∷ ys) n h =
      ground (arith, contains-delete x k ys, e.beq_iff y x, e.beq_iff y k, e.beq_iff x k)

  pub length-le :
      (xs ys : List K)
      → distinct xs ≡ true
      → ((k : K) → contains k xs ≡ true → contains k ys ≡ true)
      → length xs ≤ length ys
  unfolding distinct contains
  length-le [] ys d h = omega arith
  length-le (x ∷ xs) ys d h =
      let here : contains x ys ≡ true = h x (ground (arith, Key-refl x)) in
      omega (
        arith,
        length-delete x ys here,
        length-le xs (delete x ys) (ground arith)
            (λ k m. contains-delete x k ys (ne k m) (h k (ground arith))),
      )
    where
      ne : (k : K) → contains k xs ≡ true → e.beq x k ≡ false
      ne k m = ground (arith, e.beq_iff x k)
