-- ===== src/Irt/Snapshot.antt =====
-- `IrtAncestorSnapshot` of threlium/irt_chain.py and the ids of messages
-- (threlium/types/notmuch_message_id.py).
use threlium.Prelude.{
  Bool, false, not, ◌&&◌, Option, none, some, List, [], ◌∷◌, any, is_empty, if◌then◌else◌, ◌==◌,
}
use threlium.Prelude.Text.{Text, text_eq, strip}
use threlium.Prelude.Wire.{kv_value}
use threlium.Stage.Names.{FsmStage, rfc822_mailbox, subagent_end, subagent_intent}
use threlium.Stage.Address.{MailLib, try_from_to_header_value}

pub data IrtSubagentMarker : Type 0 where
  plain intent end : IrtSubagentMarker

pub record Snapshot : Type 0 where
  pub message_id_inner : Text
  pub path : Text
  pub tags : List Text
  pub header_from : Option Text
  pub header_to : Option Text
  pub header_route : Option Text
  pub header_references : Option Text
  pub header_in_reply_to : Option Text
  pub header_subject : Option Text

-- `s[1:-1]` if `s` begins with `<` and ends with `>`. A lone bracket cannot do both.
unfoldable pub ends_with_gt : Text → Bool
ends_with_gt [] = false
ends_with_gt (c ∷ []) = c == 62
ends_with_gt (c ∷ d ∷ s) = ends_with_gt (d ∷ s)

unfoldable pub drop_last : Text → Text
drop_last [] = []
drop_last (c ∷ []) = []
drop_last (c ∷ d ∷ s) = c ∷ drop_last (d ∷ s)

unfoldable pub unbracket : Text → Text
unfolding ends_with_gt drop_last strip
unbracket [] = []
unbracket (c ∷ s) = if c == 60 && ends_with_gt (c ∷ s) then strip (drop_last s) else c ∷ s

-- `NotmuchMessageIdInner.from_optional_raw`
unfoldable pub from_optional_raw : Option Text → Option Text
unfolding kv_value unbracket
from_optional_raw raw = elim (kv_value raw) [
  | none ↦ none
  | some t ↦ elim (unbracket t) [ [] ↦ none | c ∷ s ↦ some (c ∷ s) ]
]

module _ (lib : MailLib) where
  open lib use {lower, getaddresses}

  -- The loop over the addresses of a header.
  unfoldable pub names_stage : FsmStage → Option Text → Bool
  unfolding strip text_eq
  names_stage stage none = false
  names_stage stage (some header) =
      any
        (λ addr. not (is_empty addr) && text_eq (lower (strip addr)) (lower (rfc822_mailbox stage)))
        (getaddresses header)

  unfoldable pub is_sent_from_fsm_stage : Snapshot → FsmStage → Bool
  unfolding names_stage
  is_sent_from_fsm_stage snap stage = names_stage stage snap.header_from

  unfoldable pub is_addressed_to_fsm_stage : Snapshot → FsmStage → Bool
  unfolding names_stage
  is_addressed_to_fsm_stage snap stage = names_stage stage snap.header_to

  unfoldable pub subagent_marker : Snapshot → IrtSubagentMarker
  unfolding is_sent_from_fsm_stage
  subagent_marker snap =
      if is_sent_from_fsm_stage snap subagent_end
      then end
      else if is_sent_from_fsm_stage snap subagent_intent
      then intent
      else plain

  unfoldable pub to_fsm_stage : Snapshot → Option FsmStage
  unfolding try_from_to_header_value
  to_fsm_stage snap = try_from_to_header_value lib snap.header_to

unfoldable pub in_reply_to_inner : Snapshot → Option Text
unfolding from_optional_raw
in_reply_to_inner snap = from_optional_raw snap.header_in_reply_to
