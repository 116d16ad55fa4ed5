-- ===== src/Emit/Step.antt =====
-- `build_fsm_step_to_stage` of threlium/fsm_emit.py: the letter that hands a step on. Its date and
-- its new id are left out, and so are the score of the history and the echo of a request, which no
-- stage of the model asks for.
use threlium.Prelude.{
  ◌||◌, ◌==◌, Option, none, some, [], ◌∷◌, ◌++◌, reverse, is_empty, if◌then◌else◌, Result, ok,
  ◌>>=◌,
}
use threlium.Prelude.Int.{ℤ}
use threlium.Prelude.Text.{Text, codes, strip}
use threlium.Prelude.Wire.{parse_present_optional, parse_line}
use threlium.Stage.Names.{FsmStage}
use threlium.Irt.Snapshot.{from_optional_raw}
use threlium.Hop.Line.{IntText, advance_simple_step}
use threlium.Emit.Patch.{Incoming, hop_line}

pub record Step : Type 0 where
  pub from_stage : FsmStage
  pub to_addr : FsmStage
  pub subject : Text
  pub in_reply_to : Option Text
  pub history : Option Text
  pub system : Option Text
  pub hop_budget : Text

-- What a stage gives the builder.
pub record StepArgs : Type 0 where
  pub to_addr : FsmStage
  pub from_stage : FsmStage
  pub history : Option Text
  pub system : Option Text
  pub subject_line : Option Text

-- `s.strip("<>")`
unfoldable pub lstrip_angles : Text → Text
lstrip_angles [] = []
lstrip_angles (c ∷ s) = if c == 60 || c == 62 then lstrip_angles s else c ∷ s

unfoldable pub strip_angles : Text → Text
unfolding lstrip_angles
strip_angles s = reverse (lstrip_angles (reverse (lstrip_angles s)))

-- `NotmuchMessageIdInner.as_angle_bracket_header`
unfoldable pub as_angle_bracket_header : Text → Text
unfolding strip_angles strip
as_angle_bracket_header value = 60 ∷ (strip_angles (strip value) ++ 62 ∷ [])

-- `RfcMessageIdWire.parse_present_from_email` to `irt`
unfoldable pub irt_of : Option Text → Option Text
unfolding parse_present_optional from_optional_raw as_angle_bracket_header
irt_of message_id = elim (parse_present_optional message_id) [
  | none ↦ none
  | some wire ↦ elim (from_optional_raw (some wire)) [
    | none ↦ none
    | some inner ↦ some (as_angle_bracket_header inner)
  ]
]

-- `FsmPlainToStageSubjectLine.parse(incoming.get(HDR_SUBJECT))`
unfoldable pub plain_subject : Option Text → Result Text
unfolding parse_line
plain_subject none = ok []
plain_subject (some raw) = parse_line raw

-- The subject that is given, or the one of the incoming letter behind `Re: `.
unfoldable pub out_subject : Option Text → Text → Result Text
unfolding parse_line
out_subject none subj = parse_line (codes "Re: " ++ subj)
out_subject (some line) subj = ok line

-- `history is not None and history.strip()`
unfoldable pub history_part : Option Text → Option Text
unfolding strip
history_part none = none
history_part (some history) = if is_empty (strip history) then none else some history

module _ (it : IntText) (budget_root : ℤ) where
  -- `subject` is the Subject header of the incoming letter.
  unfoldable pub build_fsm_step_to_stage : Incoming → Option Text → StepArgs → Result Step
  unfolding irt_of plain_subject out_subject history_part hop_line advance_simple_step
  build_fsm_step_to_stage incoming subject args = do
    subj ← plain_subject subject
    line ← out_subject args.subject_line subj
    hop ← advance_simple_step it budget_root (hop_line incoming)
    ok (record {
      from_stage = args.from_stage;
      to_addr = args.to_addr;
      subject = line;
      in_reply_to = irt_of incoming.message_id;
      history = history_part args.history;
      system = args.system;
      hop_budget = hop;
    })
