-- ===== src/Prelude/Keys.antt =====
-- The interface of a dictionary's keys: the equality and the order of a Python key type.
use mathlib.Core.Path.{◌≡◌, refl}
use mathlib.Core.Logic.{◌≢◌, ◌↔◌}
use mathlib.Core.Bool.{Bool, true, false}
use native.Mathlib.Omega.{arith}

pub record Key {ℓ} (K : Type ℓ) : Type ℓ where
  pub beq : K → K → Bool
  pub beq_iff : (a b : K) → (beq a b ≡ true) ↔ (a ≡ b)
  pub le : K → K → Bool
  pub le_total : (a b : K) → le a b ≡ false → le b a ≡ true
  pub le_trans : (a b c : K) → le a b ≡ true → le b c ≡ true → le a c ≡ true
  pub le_antisym : (a b : K) → le a b ≡ true → le b a ≡ true → a ≡ b

module _ {ℓ} {K : Type ℓ} ⦃e : Key K⦄ where
  pub Key-refl : (a : K) → e.beq a a ≡ true
  Key-refl a = (e.beq_iff a a).1 refl

  pub Key-ne : (a b : K) → a ≢ b → e.beq a b ≡ false
  Key-ne a b h = ground (arith, e.beq_iff a b)

  pub beq-sym : (a b : K) → e.beq a b ≡ e.beq b a
  beq-sym a b = ground (arith, e.beq_iff a b, e.beq_iff b a)
