-- ===== src/Summary/Tagged.antt =====
-- Which originals `main` of summarize_context tags, and behind what summary.
use threlium.Prelude.{
  inl, inr, ℕ, ◌≡◌, true, false, Bool, Option, some, List, [], All, is_empty, Result, ok, inl, inr,
}
use threlium.Prelude.Among.{Among}
use threlium.Prelude.Int.{ℤ}
use threlium.Prelude.Sort.{contains}
use threlium.Prelude.Text.{Text, strip, text_key}
use threlium.Hop.Line.{IntText}
use threlium.Irt.Snapshot.{from_optional_raw}
use threlium.Emit.Step.{Step}
use threlium.Summary.Pack.{HistoryPart, History}
use threlium.Summary.Greedy.{parts_of}
use threlium.Summary.History.{SummaryLib, SummarizeHistoryUnit, count_tokens}
use threlium.Summary.Fed.{IsCutInto}
use threlium.Summary.Rounds.{feed, concat}
use threlium.Summary.Context.{Summarized, chunk_token_limit}

module _ (lib : SummaryLib) (decode_units : Text → Option (List SummarizeHistoryUnit))
    (summarize_round : Text → List HistoryPart → Result Text) (db_has : Text → Bool) (it : IntText)
    (budget_root : ℤ) (budget : ℕ) where
  abbrev limit : ℕ
  limit = chunk_token_limit lib decode_units summarize_round db_has it budget_root budget

  -- The source of a unit is tagged.
  abbrev pub IsTagged : List Text → SummarizeHistoryUnit → Type 0
  IsTagged tagged u =
      (inner : Text) × (from_optional_raw (some u.source_mid) ≡ some inner)
      × (contains inner tagged ≡ true)

  -- A tagged message is the source of a unit.
  abbrev pub IsOriginal : List SummarizeHistoryUnit → Text → Type 0
  IsOriginal units id =
      (u : SummarizeHistoryUnit) × Among u units × (from_optional_raw (some u.source_mid) ≡ some id)

  -- The letter carries a summary that is not blank, of rounds over the parts of the history, in
  -- which the text of every unit is, and the sources of the units are tagged, and no other message.
  pub record IsSummarized (units : List SummarizeHistoryUnit) (history : History)
      (result : Summarized) : Type 0 where
    pub sent : Text
    pub batches : List (List HistoryPart)
    pub carried : result.letter.history ≡ some sent
    pub not_blank : is_empty (strip sent) ≡ false
    pub summary : feed (count_tokens lib) summarize_round budget [] batches ≡ ok sent
    pub whole : concat (count_tokens lib) summarize_round budget batches ≡ parts_of history
    pub fed : All (λ u. IsCutInto lib limit (parts_of history) u.text) units
    pub tags : All (IsTagged result.tagged) units
    pub originals : All (IsOriginal units) result.tagged
