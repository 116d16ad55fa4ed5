-- ===== src/Hop/Line.antt =====
-- `HopTailToken` and `HopBudgetLine` of threlium/types/hop_cap.py, on the text of the header. `int`
-- and `str` of Python's integers are parameters.
use threlium.Prelude.{
  not, Option, none, some, List, [], ◌∷◌, ◌++◌, map, if◌then◌else◌, Result, ok, raise,
  runtime_error, ◌>>=◌,
}
use threlium.Prelude.Text.{Text}
use threlium.Prelude.Wire
use threlium.Prelude.Int.{ℤ, pos, sub_one, clamp, is_positive}
use threlium.Task.Words.{split, join_space}

-- `int(text)`, `none` where it raises, and `str(n)`.
pub record IntText : Type 0 where
  pub int : Text → Option ℤ
  pub str : ℤ → Text

-- `xs[-1]`, of a list that is not empty, and `xs[-1] = x`.
unfoldable pub last_of : Text → List Text → Text
last_of x [] = x
last_of x (y ∷ ys) = last_of y ys

unfoldable pub set_last : Text → List Text → List Text
set_last x [] = []
set_last x (y ∷ []) = x ∷ []
set_last x (y ∷ z ∷ zs) = y ∷ set_last x (z ∷ zs)

-- `HopBudgetLine.hop_tokens`, `HopTailToken.parse` at each token
unfoldable pub hop_tokens : Text → List Text
unfolding split Wire.parse
hop_tokens [] = []
hop_tokens (c ∷ line) = map (λ t. Wire.parse (some t)) (split (c ∷ line))

unfoldable pub from_tokens : List Text → Text
unfolding join_space Wire.parse
from_tokens tokens = Wire.parse (some (join_space tokens))

module _ (it : IntText) where
  open it use {int, str}

  unfoldable pub as_int : Text → Result ℤ
  as_int token = elim (int token) [ none ↦ raise runtime_error | some n ↦ ok n ]

  unfoldable pub from_int : ℤ → Text
  unfolding Wire.parse
  from_int n = Wire.parse (some (str n))

  -- `self.hop_tokens() or [HopTailToken.from_int(root_default)]`
  unfoldable pub tokens_or_root : ℤ → Text → List Text
  unfolding hop_tokens from_int
  tokens_or_root root_default line = elim (hop_tokens line) [
    | [] ↦ from_int root_default ∷ []
    | t ∷ ts ↦ t ∷ ts
  ]

  unfoldable pub advance_simple_step : ℤ → Text → Result Text
  unfolding tokens_or_root as_int from_int from_tokens last_of set_last
  advance_simple_step root_default line =
      let tokens = tokens_or_root root_default line in
      as_int (last_of [] tokens) >>= λ n.
      ok (from_tokens (set_last (from_int (pos (clamp (sub_one n)))) tokens))

  unfoldable pub push_subagent : ℤ → ℤ → Text → Result (Option Text)
  unfolding tokens_or_root as_int from_int from_tokens last_of set_last
  push_subagent root_default sub_max line =
      let tokens = tokens_or_root root_default line in
      as_int (last_of [] tokens) >>= λ n.
      (if not (is_positive (sub_one n))
        then ok none
        else ok
            (some (from_tokens (set_last (from_int (sub_one n)) tokens ++ from_int sub_max ∷ []))))

  unfoldable pub remaining : ℤ → Text → Result ℤ
  unfolding hop_tokens as_int last_of
  remaining root_default line = elim (hop_tokens line) [
    | [] ↦ ok root_default
    | t ∷ ts ↦ as_int (last_of t ts) >>= λ n. ok (pos (clamp n))
  ]
