-- ===== src/Task/Tests.antt =====
-- Runs of the ledger.
use threlium.Stage.Names.{rfc822_mailbox, enrich}
use threlium.Stage.Address.{MailLib}
use threlium.Irt.Snapshot.{Snapshot, subagent_marker}
use threlium.Irt.Filter.{has_route_tag}
use threlium.Response.Collect.{ResponseLib, collect_ops}
use threlium.Task.Collect.{TaskLib, collect_task_ops}
use threlium.Task.Upsert.{preserving, prior_ops, tasks_upsert_main, tasks_upsert_main-preserving}
use threlium.Prelude.Dict
use mathlib.Core.List.{perm-cons, perm_append_comm, Perm}
use threlium.Prelude.{
  ◌≡◌, ◌↔◌, ◌⊎◌, refl, Bool, true, false, none, some, List, [], ◌∷◌, ◌++◌, All, all, any, is_some,
  ok, arith, not, raise, runtime_error,
}
use threlium.Prelude.Text.{Text, codes, text_eq, text_key, strip}
use threlium.Prelude.Sort.{sorted, contains}
use threlium.Task.Status.{
  same, SubtaskStatus, pending, in_progress, done, cancelled, merge, is_terminal, merge_semilattice,
}
use threlium.Task.Ledger.{TaskSubtaskState, TaskLedger, content_ids}
use threlium.Task.Words.{from_text}
use threlium.Task.Ops.{
  NewSubtask, SubtaskStatusUpdate, TasksUpsertOp, TaskOp, upsert_op, TasksUpsertToolArgs,
  from_tool_args,
}
use threlium.Task.Reduce.{reduce_loop, reduce_task_ops}
use threlium.Task.Gate.{ledger_has_open_work, ledger_has_open_work_iff}
use threlium.Task.Events.{add, update, events, op_events, status_of}
use threlium.Task.Order.{ready, IsReady, joined, statuses, status_of-loop, reduce_task_ops-perm}
use threlium.Task.Sticky.{Follows, status_of-more}
use threlium.Task.Validated.{IsKept, from_tool_args-IsKept}
use threlium.Task.Accepted.{Answers, is_acceptable, operation_of, from_tool_args-is_acceptable}

abbrev upsert : List NewSubtask → List SubtaskStatusUpdate → TaskOp
upsert additions updates = upsert_op (record {
  additions = additions;
  updates = updates;
  discovery_append = none;
  next_action = none;
  blockers = none;
  allow_finalize_with_blocker = false;
  message_id_inner = codes "m";
})

abbrev added : Text → TaskOp
added cid = upsert (record { content_id = cid; text = cid; status = pending } ∷ []) []

abbrev moved_to : Text → SubtaskStatus → TaskOp
moved_to cid s = upsert [] (record { content_id = cid; status = s } ∷ [])

abbrev adds_first : List TaskOp
adds_first = added (codes "a") ∷ added (codes "b") ∷ moved_to (codes "a") done ∷ []

abbrev one_by_one : List TaskOp
one_by_one = added (codes "a") ∷ moved_to (codes "a") done ∷ added (codes "b") ∷ []

adds_first-IsReady : IsReady adds_first
unfolding events op_events ready text_eq
adds_first-IsReady k = ground arith

one_by_one-IsReady : IsReady one_by_one
unfolding events op_events ready text_eq
one_by_one-IsReady k = ground arith

reordered : Perm (events adds_first) (events one_by_one)
unfolding events op_events
reordered =
    (perm-cons (add (codes "a") (codes "a") pending)).1
      (perm_append_comm (add (codes "b") (codes "b") pending ∷ []) (update (codes "a") done ∷ []))

reduce_task_ops-perm_example :
    statuses (reduce_task_ops adds_first) ≡ statuses (reduce_task_ops one_by_one)
reduce_task_ops-perm_example =
    reduce_task_ops-perm adds_first one_by_one adds_first-IsReady one_by_one-IsReady reordered

status_of-loop_example :
    status_of (reduce_loop one_by_one).states (codes "a") ≡ joined (codes "a") (events one_by_one)
status_of-loop_example = status_of-loop one_by_one (codes "a") (one_by_one-IsReady (codes "a"))

abbrev two_subtasks : TaskLedger
two_subtasks = record {
  subtasks =
      record { content_id = codes "a"; text = codes "a"; status = done }
      ∷ record { content_id = codes "b"; text = codes "b"; status = in_progress }
      ∷ [];
  discovery_note = none;
  next_action = none;
  blockers = none;
  allow_finalize_with_blocker = true;
}

abbrev opens : TaskSubtaskState → Bool
opens s = not (is_terminal s.status)

ledger_has_open_work_iff_example : (ledger_has_open_work two_subtasks ≡ false) ↔ (
    ((all (λ s. is_terminal s.status) two_subtasks.subtasks ≡ true)
      × (any (λ s. same s.status done) two_subtasks.subtasks ≡ true))
    ⊎ ((any opens two_subtasks.subtasks ≡ true)
        × (two_subtasks.allow_finalize_with_blocker ≡ true)
        × (is_some two_subtasks.blockers ≡ true)))
ledger_has_open_work_iff_example = ledger_has_open_work_iff two_subtasks

merge_semilattice_example :
    (merge in_progress cancelled ≡ merge cancelled in_progress)
    × (merge (merge in_progress cancelled) done ≡ merge in_progress (merge cancelled done))
    × (merge in_progress in_progress ≡ in_progress)
    × (merge in_progress pending ≡ in_progress)
    × (merge in_progress done ≡ done)
merge_semilattice_example = merge_semilattice in_progress cancelled done

a_is_done : status_of (reduce_loop one_by_one).states (codes "a") ≡ some done
unfolding status_of reduce_loop Dict.get Dict.set text_eq merge
a_is_done = refl

status_of-more_example :
    (b : SubtaskStatus) × (status_of
        (reduce_loop (one_by_one ++ moved_to (codes "a") pending ∷ [])).states
        (codes "a")
      ≡ some b)
    × Follows done b
status_of-more_example =
    status_of-more one_by_one (moved_to (codes "a") pending ∷ []) (codes "a") done a_is_done

abbrev a_done_args : TasksUpsertToolArgs
a_done_args = record {
  reasoning = codes "r";
  new_subtasks = [];
  subtask_updates = record { content_id = codes "a"; status = done } ∷ [];
  discovery_append = none;
  next_action = none;
  blockers = none;
  allow_finalize_with_blocker = false;
}

abbrev a_done_op : TasksUpsertOp
a_done_op = record {
  additions = [];
  updates = record { content_id = codes "a"; status = done } ∷ [];
  discovery_append = none;
  next_action = none;
  blockers = none;
  allow_finalize_with_blocker = false;
  message_id_inner = codes "m";
}

a_done-accepted :
    from_tool_args
      (λ t. t)
      a_done_args
      (codes "m")
      (content_ids (reduce_task_ops (added (codes "a") ∷ [])))
    ≡ ok a_done_op
unfolding from_tool_args content_ids reduce_task_ops contains text_eq strip sorted Dict.get Dict.set
a_done-accepted = refl

from_tool_args-is_acceptable_example :
    Answers
      (is_acceptable a_done_args (codes "a" ∷ []))
      (from_tool_args (λ t. t) a_done_args (codes "m") (codes "a" ∷ []))
      (operation_of (λ t. t) a_done_args (codes "m"))
from_tool_args-is_acceptable_example =
    from_tool_args-is_acceptable (λ t. t) a_done_args (codes "m") (codes "a" ∷ [])

unknown_id_refused :
    from_tool_args (λ t. t) a_done_args (codes "m") (codes "b" ∷ []) ≡ raise runtime_error
unfolding from_tool_args contains text_eq strip
unknown_id_refused = refl

from_tool_args-IsKept_example :
    All
      (IsKept (reduce_loop (added (codes "a") ∷ upsert_op a_done_op ∷ [])).states)
      a_done_op.updates
from_tool_args-IsKept_example =
    from_tool_args-IsKept (λ t. t) (added (codes "a") ∷ []) a_done_args (codes "m") a_done_op
      a_done-accepted

-- A chain of one letter of `enrich`, which declares the subtask `a`.
abbrev plain_mail : MailLib
plain_mail = record { lower = λ t. t; casefold = λ t. t; getaddresses = λ t. t ∷ [] }

abbrev no_responses : ResponseLib
no_responses = record {
  message_has_system = λ path. false;
  system_part_text_from_path = λ path. path;
  parse_response_edit_stage_payload = λ body. none;
}

abbrev one_task : TaskLib
one_task = record {
  task_init_part = λ path. some path;
  system_part_text_from_path = λ path. path;
  decode_task_init = λ body. some ((codes "a", codes "a") ∷ []);
  decode_tasks_upsert = λ body. some a_done_args;
  sha256_hex = λ t. t;
}

abbrev enrich_letter : Snapshot
enrich_letter = record {
  message_id_inner = codes "e";
  path = codes "p";
  tags = [];
  header_from = some (rfc822_mailbox enrich);
  header_to = none;
  header_route = none;
  header_references = none;
  header_in_reply_to = none;
  header_subject = none;
}

a_done-preserving :
    tasks_upsert_main plain_mail no_responses one_task
      (codes "{}")
      (codes "m")
      (some (enrich_letter ∷ []))
    ≡ ok preserving
unfolding tasks_upsert_main content_ids reduce_task_ops contains text_eq strip sorted Dict.get
    Dict.set subagent_marker rfc822_mailbox has_route_tag collect_ops collect_task_ops from_text
a_done-preserving = refl

tasks_upsert_main-preserving_example :
    (ops : List TaskOp) × (op : TasksUpsertOp) × (args : TasksUpsertToolArgs) × (prior_ops
        plain_mail no_responses one_task
        (some (enrich_letter ∷ []))
      ≡ ok ops)
    × (one_task.decode_tasks_upsert (strip (codes "{}")) ≡ some args)
    × (from_tool_args one_task.sha256_hex args (codes "m") (content_ids (reduce_task_ops ops))
        ≡ ok op)
    × All (IsKept (reduce_loop (ops ++ (upsert_op op ∷ []))).states) op.updates
tasks_upsert_main-preserving_example =
    tasks_upsert_main-preserving plain_mail no_responses one_task (codes "{}") (codes "m")
      (some (enrich_letter ∷ [])) a_done-preserving
