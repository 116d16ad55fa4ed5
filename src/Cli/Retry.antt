-- ===== src/Cli/Retry.antt =====
-- `invoke_with_bridge_retries` of threlium/litellm_required_tool.py: which attempt gives its value.
use threlium.Prelude.{
  ℕ, zero, suc, ◌+◌, ◌≤◌, ◌<◌, ◌≡◌, refl, ap, ◌∙◌, Bool, true, false, inl, inr, Bool-cases, ◌==◌,
  arith, Result, Error, ok, raise,
}
use threlium.Cli.Resume.{retry_loop}

beq-eq : (k i : ℕ) → (k == i) ≡ true → k ≡ i
beq-eq k i h = ground arith

-- One of the attempts before `max` gave the value, and those before it raised what is retried.
abbrev pub IsGiven : {A : Type 0} → (ℕ → Result A) → (Error → Bool) → ℕ → ℕ → A → Type 0
IsGiven attempt retried first max a =
    (j : ℕ) × (first ≤ j)
    × (j < max)
    × (attempt j ≡ ok a)
    × ((k : ℕ) → first ≤ k → k < j → (e : Error) × (attempt k ≡ raise e) × (retried e ≡ true))

module _ {A : Type 0} (attempt : ℕ → Result A) (retried : Error → Bool) where
  pub retry_loop-IsGiven :
      (i left : ℕ) (last_error : Error) {a : A}
      → retry_loop attempt retried i left last_error ≡ ok a
      → IsGiven attempt retried i (i + left) a
  unfolding retry_loop
  retry_loop-IsGiven i zero last_error h = cc
  retry_loop-IsGiven i (suc left) last_error {a} h =
      by_attempt (attempt i) (λ e k. retry_loop-IsGiven (i + 1) left e k) refl h
    where
      later :
          (e : Error)
          → attempt i ≡ raise e
          → retried e ≡ true
          → IsGiven attempt retried (i + 1) (i + 1 + left) a
          → IsGiven attempt retried i (i + suc left) a
      later e raised again (j, from, below, gave, before) = (
        j,
        omega arith,
        omega arith,
        gave,
        λ k p q. elim (Bool-cases (k == i)) [
          | inl first ↦ (e, ap attempt (beq-eq k i first) ∙ raised, again)
          | inr after ↦ before k (ground arith) q
        ],
      )

      by_attempt :
          (r : Result A)
          → ((e : Error)
              → retry_loop attempt retried (i + 1) left e ≡ ok a
              → IsGiven attempt retried (i + 1) (i + 1 + left) a)
          → attempt i ≡ r
          → (elim r as (λ _. Result A) [
            | ok args ↦ ok args
            | raise e ↦ elim (retried e) [
              | true ↦ retry_loop attempt retried (i + 1) left e
              | false ↦ raise e
            ]
          ])
            ≡ ok a
          → IsGiven attempt retried i (i + suc left) a
      by_attempt (ok args) rest e k =
          (i, omega arith, omega arith, e ∙ k, λ l p q. absurd (omega arith))
      by_attempt (raise x) rest e k = elim (Bool-cases (retried x)) [
        | inr no_more ↦ let y = rw no_more at k in cc
        | inl again ↦ later x e again (rest x (rw again at k))
      ]
