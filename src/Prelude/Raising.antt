-- ===== src/Prelude/Raising.antt =====
-- What a call returns, or the exception that it raises.
use mathlib.Core.Path.{◌≡◌, refl}
use mathlib.Core.Logic.{◌⊎◌, inl, inr}
use mathlib.Core.Bool.{Bool, true, false}
use mathlib.Core.Option.{some}

-- The exception classes that the code raises or catches by name.
pub data Error : Type 0 where
  value_error runtime_error decode_error lookup_error os_error reasoning_stage_error
        tool_bridge_error tool_response_error schema_error :
      Error

pub data Result {ℓ} (A : Type ℓ) : Type ℓ where
  ok : A → Result A
  raise : Error → Result A

infixl 5 ◌>>◌
-- A call, and what is done with the value that it returns; an exception ends the sequence.
module _ {ℓ κ} {A : Type ℓ} {B : Type κ} where
  infixl 5 ◌>>=◌
  abbrev pub ◌>>=◌ : Result A → (A → Result B) → Result B
  raise x >>= k = raise x
  ok y >>= k = k y

-- A call for its exceptions alone.
abbrev pub ◌>>◌ {κ} : {B : Type κ} → Result (Unit {0}) → Result B → Result B
check >> rest = check >>= λ passed. rest

-- `if failed: raise e`
abbrev pub raise_if : Bool → Error → Result (Unit {0})
raise_if true e = raise e
raise_if false e = ok tt

-- What a sequence that returns has gone through: the value of the call, and what the rest made of it.
module _ {ℓ κ} {A : Type ℓ} {B : Type κ} where
  pub >>=-eq-ok :
      (call : Result A) (rest : A → Result B) {out : B}
      → (call >>= rest) ≡ ok out
      → (value : A) × (call ≡ ok value) × (rest value ≡ ok out)
  >>=-eq-ok (raise x) rest returned = cc
  >>=-eq-ok (ok value) rest returned = (value, refl, returned)

pub ok-injective {ℓ} : {A : Type ℓ} {x y : A} → ok x ≡ ok y → x ≡ y
ok-injective same = cc

pub some-injective {ℓ} : {A : Type ℓ} {x y : A} → some x ≡ some y → x ≡ y
some-injective same = cc

pub Result-cases {ℓ} :
    {A : Type ℓ} (m : Result A) → ((a : A) × (m ≡ ok a)) ⊎ ((e : Error) × (m ≡ raise e))
Result-cases (ok a) = inl (a, refl)
Result-cases (raise e) = inr (e, refl)

pub raise_if-ok : (b : Bool) (x : Error) {u : Unit {0}} → raise_if b x ≡ ok u → b ≡ false
raise_if-ok true x h = cc
raise_if-ok false x h = refl
