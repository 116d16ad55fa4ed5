-- ===== src/Prelude/Int.antt =====
-- Python's `int`, as far as the code computes with negative numbers: steps by one, the order, and
-- integers as the keys of a dictionary.
use Prim.Native.Nat.{ℕ, zero, suc}
use mathlib.Core.Path.{◌≡◌}
use mathlib.Core.Logic.{◌↔◌}
use mathlib.Core.Bool.{Bool, true, false}
use native.Mathlib.Omega.{arith}
use threlium.Prelude.Tests.{ltb, leb, ◌==◌}
use threlium.Prelude.Keys.{Key}

-- `negsuc n` is -(n + 1).
pub data ℤ : Type 0 where
  pos : ℕ → ℤ
  negsuc : ℕ → ℤ

-- `z + 1` and `z - 1`
abbrev pub add_one : ℤ → ℤ
add_one (pos n) = pos (suc n)
add_one (negsuc zero) = pos 0
add_one (negsuc (suc n)) = negsuc n

abbrev pub sub_one : ℤ → ℤ
sub_one (pos zero) = negsuc 0
sub_one (pos (suc n)) = pos n
sub_one (negsuc n) = negsuc (suc n)

-- `max(0, z)`
abbrev pub clamp : ℤ → ℕ
clamp (pos n) = n
clamp (negsuc n) = 0

-- `z < 1` and `z > 0`
abbrev pub is_positive : ℤ → Bool
is_positive (pos n) = ltb 0 n
is_positive (negsuc n) = false

unfoldable pub int_eq : ℤ → ℤ → Bool
int_eq (pos a) (pos b) = a == b
int_eq (negsuc a) (negsuc b) = a == b
int_eq _ _ = false

unfoldable pub int_le : ℤ → ℤ → Bool
int_le (pos a) (pos b) = leb a b
int_le (pos a) (negsuc b) = false
int_le (negsuc a) (pos b) = true
int_le (negsuc a) (negsuc b) = leb b a

pub int_eq_iff : (a b : ℤ) → (int_eq a b ≡ true) ↔ (a ≡ b)
unfolding int_eq
int_eq_iff (pos a) (pos b) = ground arith
int_eq_iff _ _ = ground arith

pub int_le_total : (a b : ℤ) → int_le a b ≡ false → int_le b a ≡ true
unfolding int_le
int_le_total (pos a) (pos b) h = ground arith
int_le_total _ _ h = ground arith

pub int_le_trans : (a b c : ℤ) → int_le a b ≡ true → int_le b c ≡ true → int_le a c ≡ true
unfolding int_le
int_le_trans (pos a) (pos b) (pos c) p q = ground arith
int_le_trans _ _ _ p q = ground arith

pub int_le_antisym : (a b : ℤ) → int_le a b ≡ true → int_le b a ≡ true → a ≡ b
unfolding int_le
int_le_antisym (pos a) (pos b) p q = ground arith
int_le_antisym _ _ p q = ground arith

instance abbrev pub int_key : Key ℤ
int_key = record {
  beq = int_eq;
  beq_iff = int_eq_iff;
  le = int_le;
  le_total = int_le_total;
  le_trans = int_le_trans;
  le_antisym = int_le_antisym;
}
