-- ===== src/Summary/Pack.antt =====
-- `pack_next_fitted`, `consume_fitted` and `history_by_mid_empty` of threlium/summarize_pack.py.
use threlium.Prelude.{
  ℕ, ◌+◌, ltb, ◌==◌, Bool, true, false, not, ◌&&◌, List, [], ◌∷◌, ◌++◌, any, is_empty,
  if◌then◌else◌,
}
use threlium.Prelude.Text.{Text}
use threlium.Prelude.Dict.{Dict}

-- A part of the history; `object` is the identity that `is` compares.
pub record HistoryPart : Type 0 where
  pub object : ℕ
  pub cid : Text
  pub text : Text

-- `dict[mid → list[HistoryPart]]`
abbrev pub History : Type 0
History = Dict Text (List HistoryPart)

-- `count` is `count_tokens` with the tokenizer.
module _ (count : Text → ℕ) (content_budget : ℕ) where
  -- The inner loop, with whether it has returned.
  unfoldable pub pack_parts :
      List HistoryPart → ℕ → List HistoryPart → (List HistoryPart × ℕ) × Bool
  pack_parts fitted used [] = ((fitted, used), false)
  pack_parts fitted used (p ∷ parts) =
      let rest = pack_parts (fitted ++ p ∷ []) (used + count p.text) parts in
      if not (is_empty fitted) && ltb content_budget (used + count p.text)
      then ((fitted, used), true)
      else rest

  unfoldable pub pack_loop : List HistoryPart → ℕ → History → List HistoryPart
  unfolding pack_parts
  pack_loop fitted used [] = fitted
  pack_loop fitted used ((inner, parts) ∷ history) =
      let ((fitted', used'), returned) = pack_parts fitted used parts in
      let rest = pack_loop fitted' used' history in if returned then fitted' else rest

  unfoldable pub pack_next_fitted : History → List HistoryPart
  unfolding pack_loop
  pack_next_fitted history_by_mid = pack_loop [] 0 history_by_mid

-- The `while` loop of `consume_fitted`: what is left of `parts` and of `remaining`.
unfoldable pub pop_fitted :
    List HistoryPart → List HistoryPart → List HistoryPart × List HistoryPart
pop_fitted [] remaining = ([], remaining)
pop_fitted (p ∷ parts) [] = (p ∷ parts, [])
pop_fitted (p ∷ parts) (r ∷ remaining) =
    let rest = pop_fitted parts remaining in
    if p.object == r.object then rest else (p ∷ parts, r ∷ remaining)

-- The `for` loop. The keys are those of the dictionary before it.
unfoldable pub consume_loop : History → List HistoryPart → History
unfolding pop_fitted
consume_loop [] remaining = []
consume_loop ((inner, parts) ∷ history) remaining =
    let (parts', remaining') = pop_fitted parts remaining in
    let later = consume_loop history remaining' in
    let rest = if is_empty remaining' then history else later in
    if is_empty parts' then rest else (inner, parts') ∷ rest

unfoldable pub consume_fitted : History → List HistoryPart → History
unfolding consume_loop
consume_fitted history_by_mid fitted = consume_loop history_by_mid fitted

unfoldable pub history_by_mid_empty : History → Bool
history_by_mid_empty history_by_mid = not (any (λ e. not (is_empty e.1)) history_by_mid)
