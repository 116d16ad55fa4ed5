-- ===== src/Summary/Tests.antt =====
-- Runs of the summaries.
use threlium.Prelude.{
  Bool, true, Option, none, ℕ, ◌≡◌, ◌<◌, refl, some, List, [], ◌∷◌, ◌++◌, arith, length, is_empty,
  Result, ok,
}
use threlium.Prelude.Text.{Text, codes}
use threlium.Summary.Pack.{HistoryPart, History, pack_next_fitted}
use threlium.Summary.Greedy.{parts_of, IsBounded, IsGreedy, pack_next_fitted-IsGreedy}
use threlium.Prelude.Int.{pos}
use threlium.Stage.Names.{summarize_context, summarize_memory}
use threlium.Hop.Line.{IntText}
use threlium.Emit.Patch.{Incoming}
use threlium.Summary.History.{SummaryLib, SummarizeHistoryUnit}
use threlium.Summary.Rounds.{feed, concat, rounds_loop, rounds_loop-feed}
use threlium.Summary.Context.{Summarized, summarize_main}

abbrev part : ℕ → Text → HistoryPart
part object text = record { object = object; cid = text; text = text }

abbrev two_letters : History
two_letters =
    (codes "a", part 0 (codes "one") ∷ part 1 (codes "two") ∷ [])
    ∷ (codes "b", part 2 (codes "three") ∷ [])
    ∷ []

-- The summary of a round is the text of its first part.
abbrev first_text : Text → List HistoryPart → Result Text
first_text prior [] = ok prior
first_text prior (p ∷ parts) = ok p.text

pack_next_fitted-IsGreedy_example :
    (rest : List HistoryPart) × (parts_of two_letters
      ≡ pack_next_fitted length 6 two_letters ++ rest)
    × IsBounded length 6 (pack_next_fitted length 6 two_letters)
    × IsGreedy length 6 (pack_next_fitted length 6 two_letters) rest
    × (is_empty (pack_next_fitted length 6 two_letters) ≡ is_empty (parts_of two_letters))
pack_next_fitted-IsGreedy_example = pack_next_fitted-IsGreedy length 6 two_letters

two_letters-parts :
    parts_of two_letters
    ≡ (part 0 (codes "one") ∷ part 1 (codes "two") ∷ []) ++ (part 2 (codes "three") ∷ [])
unfolding parts_of
two_letters-parts = refl

few_parts : length (parts_of two_letters) < 4
unfolding parts_of
few_parts = omega arith

rounds_loop-feed_example :
    (batches : List (List HistoryPart)) × (rounds_loop length first_text 6 4 [] two_letters
      ≡ some (feed length first_text 6 [] batches))
    × (concat length first_text 6 batches ≡ parts_of two_letters)
rounds_loop-feed_example = rounds_loop-feed length first_text 6 4 [] two_letters few_parts

-- A token is a character.
abbrev by_character : SummaryLib
by_character = record { encode = λ t. t; decode = λ t. t; sha256_hex = λ t. t }

abbrev five : IntText
five = record { int = λ t. some (pos 5); str = λ n. codes "5" }

-- The first text is longer than a round takes.
abbrev two_units : List SummarizeHistoryUnit
two_units =
    record { cid = codes "1"; text = codes "abcd"; source_mid = codes "<b>" }
    ∷ record { cid = codes "2"; text = codes "xy"; source_mid = codes "<a>" }
    ∷ []

abbrev decodes : Text → Option (List SummarizeHistoryUnit)
decodes text = some two_units

abbrev in_index : Text → Bool
in_index mid = true

abbrev task_letter : Incoming
task_letter = record { from = none; message_id = some (codes "<m>"); hop_budget = none }

abbrev cut_history : History
cut_history =
    (
      codes "b",
      record { object = 2; cid = codes "<abc@history>"; text = codes "abc" }
          ∷ record { object = 3; cid = codes "<d@history>"; text = codes "d" }
          ∷ [],
    )
    ∷ (codes "a", record { object = 1; cid = codes "2"; text = codes "xy" } ∷ [])
    ∷ []

abbrev summarized : Summarized
summarized = record {
  tagged = codes "a" ∷ codes "b" ∷ [];
  letter = record {
    from_stage = summarize_context;
    to_addr = summarize_memory;
    subject = codes "Re: long";
    in_reply_to = some (codes "<m>");
    history = some (codes "abc");
    system = none;
    hop_budget = codes "5";
  };
}

task_summarized :
    summarize_main by_character decodes first_text in_index five
      (pos 5)
      6
      4
      task_letter
      (some (codes "long"))
      (ok (codes "t"))
    ≡ some (ok (some summarized))
unfolding summarize_main
task_summarized = refl
