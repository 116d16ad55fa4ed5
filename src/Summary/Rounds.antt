-- ===== src/Summary/Rounds.antt =====
-- The loop of threlium/states/summarize_context.py: rounds of the language model until the history is
-- empty. The model of a round and the tokenizer are parameters.
use mathlib.Core.List.{append-nil}
use threlium.Prelude.{
  ℕ, zero, suc, ◌-◌, ◌<◌, max, ◌≡◌, refl, sym, ap, ◌∙◌, true, false, Option, none, some, List, [],
  ◌∷◌, ◌++◌, arith, length, length-append, is_empty, if◌then◌else◌, Result, ok, raise, ◌>>=◌,
  Result-cases, Bool-cases, inl, inr,
}
use threlium.Prelude.Text.{text_key, Text}
use threlium.Summary.Pack.{
  HistoryPart, History, pack_next_fitted, consume_fitted, history_by_mid_empty,
}
use threlium.Summary.Greedy.{parts_of, pack_next_fitted-IsGreedy, consume_fitted-prefix}

empty-nil : (parts : List HistoryPart) → is_empty parts ≡ true → [] ≡ parts
empty-nil [] h = refl
empty-nil (p ∷ parts) h = cc

length-not_empty : (parts : List HistoryPart) → is_empty parts ≡ false → 0 < length parts
length-not_empty [] h = ground (arith, h)
length-not_empty (p ∷ parts) h = omega arith

module _ (count : Text → ℕ) (summarize_round : Text → List HistoryPart → Result Text)
    (budget : ℕ) where
  -- `max(1, budget - prior_tokens)`
  unfoldable pub content_budget_after : Text → ℕ
  content_budget_after rolling_summary = max 1 (budget - count rolling_summary)

  -- The `while` loop, `none` where the fuel has run out.
  unfoldable pub rounds_loop : ℕ → Text → History → Option (Result Text)
  unfolding content_budget_after pack_next_fitted consume_fitted history_by_mid_empty
  rounds_loop zero rolling_summary history = none
  rounds_loop (suc fuel) rolling_summary history =
      if history_by_mid_empty history
      then some (ok rolling_summary)
      else let fitted = pack_next_fitted count (content_budget_after rolling_summary) history in
        if is_empty fitted
        then some (ok rolling_summary)
        else elim (summarize_round rolling_summary fitted) [
          | raise e ↦ some (raise e)
          | ok summary ↦ rounds_loop fuel summary (consume_fitted history fitted)
        ]

  -- The rounds of given batches, one after another.
  unfoldable pub feed : Text → List (List HistoryPart) → Result Text
  feed summary [] = ok summary
  feed summary (batch ∷ batches) = summarize_round summary batch >>= λ next. feed next batches

  unfoldable pub concat : List (List HistoryPart) → List HistoryPart
  concat [] = []
  concat (batch ∷ batches) = batch ++ concat batches

  empty-parts_of : (history : History) → history_by_mid_empty history ≡ is_empty (parts_of history)
  unfolding history_by_mid_empty parts_of
  empty-parts_of [] = refl
  empty-parts_of ((inner, []) ∷ history) = empty-parts_of history
  empty-parts_of ((inner, p ∷ parts) ∷ history) = refl

  -- The loop feeds every part of the history to the model, once and in order: with more fuel than
  -- there are parts it ends, and its outcome is that of rounds over batches that are together the
  -- parts of the history. An exception of a round is the outcome of the loop.
  pub rounds_loop-feed :
      (fuel : ℕ) (summary : Text) (history : History)
      → length (parts_of history) < fuel
      → (batches : List (List HistoryPart)) × (rounds_loop fuel summary history
          ≡ some (feed summary batches))
        × (concat batches ≡ parts_of history)
  unfolding rounds_loop feed concat
  rounds_loop-feed zero summary history h = ground (arith, h)
  rounds_loop-feed (suc fuel) summary history h =
      let (rest, eq, bound, stop, same) =
        pack_next_fitted-IsGreedy count (content_budget_after summary) history in
      let fitted = pack_next_fitted count (content_budget_after summary) history in
      elim (Bool-cases (history_by_mid_empty history)) [
        | inl t ↦
            rw (rounds_loop, t)
              ([], refl, empty-nil (parts_of history) (sym (empty-parts_of history) ∙ t))
        | inr f ↦
            let some_parts : is_empty fitted ≡ false = same ∙ sym (empty-parts_of history) ∙ f in
            elim (Result-cases (summarize_round summary fitted)) [
              | inr (e, r) ↦
                  rw (rounds_loop, f, some_parts, r)
                    (fitted ∷ rest ∷ [], rw r refl, rw (append-nil rest) (sym eq))
              | inl (next, r) ↦
                  let left : parts_of (consume_fitted history fitted) ≡ rest =
                    consume_fitted-prefix history fitted rest eq in
                  let (batches, out, all) =
                    rounds_loop-feed fuel next (consume_fitted history fitted) (
                      omega (
                        arith,
                        h,
                        ap length eq,
                        length-append fitted rest,
                        length-not_empty fitted some_parts,
                        ap length left,
                      )) in
                  rw (rounds_loop, f, some_parts, r)
                    (fitted ∷ batches, rw r out, ap (λ ps. fitted ++ ps) (all ∙ left) ∙ sym eq)
            ]
      ]
