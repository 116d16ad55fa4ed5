-- ===== src/Task/Ledger.antt =====
-- `TaskSubtaskState` and `TaskLedger` of threlium/types/task_ledger.py. A value object that wraps a
-- string (`TaskSubtaskText`, `TaskSubtaskContentId`, the metadata texts) is its text.
use threlium.Prelude.{Bool, Option, none, some, List, [], ◌∷◌, map, not, select, is_empty}
use threlium.Prelude.Text.{Text, text_key}
use threlium.Prelude.Dict
use threlium.Prelude.Dict.{Dict}
use threlium.Prelude.Sort.{sorted}
use threlium.Task.Status.{SubtaskStatus, done, cancelled, is_terminal, same}

pub record TaskSubtaskState : Type 0 where
  pub content_id : Text
  pub text : Text
  pub status : SubtaskStatus

pub record TaskLedger : Type 0 where
  pub subtasks : List TaskSubtaskState
  pub discovery_note : Option Text
  pub next_action : Option Text
  pub blockers : Option Text
  pub allow_finalize_with_blocker : Bool

-- `tuple(d[k] for k in ks)`; the keys are those of the dictionary, so no look-up fails.
unfoldable pub pick : Dict Text TaskSubtaskState → List Text → List TaskSubtaskState
pick states [] = []
pick states (k ∷ ks) = elim (Dict.get k states) [
  | none ↦ pick states ks
  | some s ↦ s ∷ pick states ks
]

unfoldable pub from_states :
    Dict Text TaskSubtaskState → Option Text → Option Text → Option Text → Bool → TaskLedger
unfolding pick
from_states states discovery_note next_action blockers allow = record {
  subtasks = pick states (sorted (Dict.keys states));
  discovery_note = discovery_note;
  next_action = next_action;
  blockers = blockers;
  allow_finalize_with_blocker = allow;
}

unfoldable pub ledger_is_empty : TaskLedger → Bool
ledger_is_empty l = is_empty l.subtasks

unfoldable pub open_subtasks : TaskLedger → List TaskSubtaskState
open_subtasks l = select (λ s. not (is_terminal s.status)) l.subtasks

unfoldable pub done_subtasks : TaskLedger → List TaskSubtaskState
done_subtasks l = select (λ s. same s.status done) l.subtasks

unfoldable pub cancelled_subtasks : TaskLedger → List TaskSubtaskState
cancelled_subtasks l = select (λ s. same s.status cancelled) l.subtasks

unfoldable pub content_ids : TaskLedger → List Text
content_ids l = map (λ s. s.content_id) l.subtasks
