-- ===== src/Summary/Context.antt =====
-- `main` of threlium/states/summarize_context.py: the rounds over the parts of a task, and the tags
-- of the originals behind them. The tokenizer, the decoding of a task, the model of a round and the
-- index are parameters.
use threlium.Prelude.{
  ℕ, ◌/◌, max, Bool, Option, none, some, List, [], ◌∷◌, length, is_empty, if◌then◌else◌, Result, ok,
  raise, raise_if, not, Error, runtime_error, value_error, lookup_error, tool_bridge_error, ◌>>=◌,
  ◌>>◌,
}
use threlium.Prelude.Int.{ℤ}
use threlium.Prelude.Sort.{sorted, contains}
use threlium.Prelude.Text.{Text, strip, text_key, text_le, text_eq}
use threlium.Stage.Names.{summarize_context, summarize_memory}
use threlium.Hop.Line.{IntText}
use threlium.Irt.Snapshot.{from_optional_raw}
use threlium.Emit.Patch.{Incoming}
use threlium.Emit.Step.{Step, StepArgs, build_fsm_step_to_stage}
use threlium.Summary.Pack.{HistoryPart, History}
use threlium.Summary.History.{
  SummaryLib, SummarizeHistoryUnit, build_history_by_mid, split_oversized_in_place, count_tokens,
}
use threlium.Summary.Rounds.{rounds_loop}

-- `except SummarizeToolBridgeError: raise RuntimeError`
unfoldable pub untagged : Error → Error
untagged tool_bridge_error = runtime_error
untagged e = e

-- `[NotmuchMessageIdInner.parse(m) for m in …]`
unfoldable pub parse_mids : List Text → Result (List Text)
unfolding from_optional_raw
parse_mids [] = ok []
parse_mids (mid ∷ mids) = elim (from_optional_raw (some mid)) [
  | none ↦ raise value_error
  | some inner ↦ parse_mids mids >>= λ rest. ok (inner ∷ rest)
]

-- `{u.source_mid for u in units}`
unfoldable pub source_mids : List SummarizeHistoryUnit → List Text
unfolding contains text_eq
source_mids [] = []
source_mids (u ∷ units) =
    let mids = source_mids units in if contains u.source_mid mids then mids else u.source_mid ∷ mids

-- `batch_tag_add`, of whether the index has a message: the ids that get the tag.
unfoldable pub batch_tag_add : (Text → Bool) → List Text → Result (List Text)
batch_tag_add db_has [] = ok []
batch_tag_add db_has (mid ∷ mids) = do
  raise_if (not (db_has mid)) lookup_error
  rest ← batch_tag_add db_has mids
  ok (mid ∷ rest)

-- What `main` gives the builder of its letter.
abbrev pub summary_step : Text → StepArgs
summary_step rolling_summary = record {
  to_addr = summarize_memory;
  from_stage = summarize_context;
  history = some rolling_summary;
  system = none;
  subject_line = none;
}

-- What `main` has done where it emits a letter: the messages that it has tagged, and the letter.
pub record Summarized : Type 0 where
  pub tagged : List Text
  pub letter : Step

module _ (lib : SummaryLib) (decode_units : Text → Option (List SummarizeHistoryUnit))
    (summarize_round : Text → List HistoryPart → Result Text) (db_has : Text → Bool) (it : IntText)
    (budget_root : ℤ) (budget : ℕ) where
  -- `_parse_payload`. `decode_units` is the decoding by msgspec, `none` where it raises.
  unfoldable pub parse_payload : Text → Option (List SummarizeHistoryUnit)
  unfolding strip
  parse_payload text = elim (decode_units (strip text)) [
    | none ↦ none
    | some [] ↦ none
    | some (u ∷ units) ↦ some (u ∷ units)
  ]

  abbrev pub chunk_token_limit : ℕ
  chunk_token_limit = max 1 (budget / 2)

  -- What the rounds run over: `build_history_by_mid` and `split_oversized_in_place`.
  unfoldable pub history_of : List SummarizeHistoryUnit → Result History
  unfolding build_history_by_mid split_oversized_in_place
  history_of units = build_history_by_mid units >>= λ history_by_mid.
      ok (split_oversized_in_place lib chunk_token_limit (length units) history_by_mid)

  -- The lines behind the loop.
  unfoldable pub finish :
      Incoming → Option Text → List SummarizeHistoryUnit → Text → Result Summarized
  unfolding strip sorted text_le parse_mids source_mids batch_tag_add build_fsm_step_to_stage
  finish incoming subject units rolling_summary = do
    raise_if (is_empty (strip rolling_summary)) runtime_error
    nm_mids ← parse_mids (sorted (source_mids units))
    tagged ← batch_tag_add db_has nm_mids
    letter ← build_fsm_step_to_stage it budget_root incoming subject (summary_step rolling_summary)
    ok (record { tagged = tagged; letter = letter })

  -- `main` of a task that can be read, `none` where the fuel has run out.
  unfoldable pub summarize_units :
      ℕ → Incoming → Option Text → List SummarizeHistoryUnit → Option (Result Summarized)
  unfolding history_of rounds_loop untagged finish count_tokens
  summarize_units fuel incoming subject units = elim (history_of units) [
    | raise e ↦ some (raise e)
    | ok history ↦ elim (rounds_loop (count_tokens lib) summarize_round budget fuel [] history) [
      | none ↦ none
      | some (raise e) ↦ some (raise (untagged e))
      | some (ok rolling_summary) ↦ some (finish incoming subject units rolling_summary)
    ]
  ]

  -- `main`, of the text of the letter's `<system>` part. A task that cannot be read is answered by
  -- no letter.
  unfoldable pub summarize_main :
      ℕ → Incoming → Option Text → Result Text → Option (Result (Option Summarized))
  unfolding parse_payload summarize_units
  summarize_main fuel incoming subject (raise e) = some (raise e)
  summarize_main fuel incoming subject (ok text) = elim (parse_payload (strip text)) [
    | none ↦ some (ok none)
    | some units ↦ elim (summarize_units fuel incoming subject units) [
      | none ↦ none
      | some (raise e) ↦ some (raise e)
      | some (ok done) ↦ some (ok (some done))
    ]
  ]
