-- ===== src/Task/Reduce.antt =====
-- threlium/task/reduce.py: the operations of a frame, reduced to a ledger.
use threlium.Prelude.{Bool, false, Option, none, some, List, [], foldl}
use threlium.Prelude.Text.{Text, text_key}
use threlium.Prelude.Dict
use threlium.Prelude.Dict.{Dict}
use threlium.Task.Status.{SubtaskStatus, pending, merge}
use threlium.Task.Ledger.{TaskSubtaskState, TaskLedger, from_states}
use threlium.Task.Ops.{TaskOp, init_op, upsert_op, NewSubtask, SubtaskStatusUpdate, TaskSubtaskDef}

abbrev pub States : Type 0
States = Dict Text TaskSubtaskState

-- `_ensure_exists`
unfoldable pub ensure_exists : States → Text → Text → SubtaskStatus → States
ensure_exists states content_id text status = elim (Dict.get content_id states) [
  | none ↦
      Dict.set content_id (record { content_id = content_id; text = text; status = status }) states
  | some cur ↦ Dict.set content_id (record cur { status = merge cur.status status }) states
]

-- `_apply_update`: an update of a subtask that is not there changes nothing.
unfoldable pub apply_update : States → Text → SubtaskStatus → States
apply_update states content_id status = elim (Dict.get content_id states) [
  | none ↦ states
  | some cur ↦ Dict.set content_id (record cur { status = merge cur.status status }) states
]

-- The variables of the loop of `reduce_task_ops`.
pub record Reduction : Type 0 where
  pub states : States
  pub discovery_note : Option Text
  pub next_action : Option Text
  pub blockers : Option Text
  pub allow_finalize_with_blocker : Bool

abbrev pub start : Reduction
start = record {
  states = [];
  discovery_note = none;
  next_action = none;
  blockers = none;
  allow_finalize_with_blocker = false;
}

-- `if new is not None: old = new`
abbrev pub last_wins : Option Text → Option Text → Option Text
last_wins none old = old
last_wins (some t) old = some t

unfoldable pub ensure_defs : States → List TaskSubtaskDef → States
unfolding ensure_exists
ensure_defs = foldl (λ st d. ensure_exists st d.content_id d.text pending)

unfoldable pub ensure_additions : States → List NewSubtask → States
unfolding ensure_exists
ensure_additions = foldl (λ st a. ensure_exists st a.content_id a.text a.status)

unfoldable pub apply_updates : States → List SubtaskStatusUpdate → States
unfolding apply_update
apply_updates = foldl (λ st u. apply_update st u.content_id u.status)

-- One round of the loop.
unfoldable pub reduce_step : Reduction → TaskOp → Reduction
unfolding ensure_defs ensure_additions apply_updates
reduce_step r (init_op op) = record r { states = ensure_defs r.states op.subtasks }
reduce_step r (upsert_op op) = record {
  states = apply_updates (ensure_additions r.states op.additions) op.updates;
  discovery_note = last_wins op.discovery_append r.discovery_note;
  next_action = last_wins op.next_action r.next_action;
  blockers = last_wins op.blockers r.blockers;
  allow_finalize_with_blocker = op.allow_finalize_with_blocker;
}

unfoldable pub reduce_loop : List TaskOp → Reduction
unfolding reduce_step
reduce_loop = foldl reduce_step start

unfoldable pub reduce_task_ops : List TaskOp → TaskLedger
unfolding reduce_loop from_states
reduce_task_ops ops =
    let r = reduce_loop ops in
    from_states r.states r.discovery_note r.next_action r.blockers r.allow_finalize_with_blocker
