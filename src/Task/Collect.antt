-- ===== src/Task/Collect.antt =====
-- `collect_task_ops` of threlium/task/collect.py and `crdt_ledger_state` of
-- threlium/ledger_context_parts.py: the ledger of the frame of a letter.
use threlium.Prelude.{false, Option, none, some, List, [], ◌∷◌, reverse, if◌then◌else◌}
use threlium.Prelude.Text.{Text, strip}
use threlium.Stage.Names.{enrich, tasks_upsert}
use threlium.Stage.Address.{MailLib}
use threlium.Irt.Snapshot.{Snapshot, is_sent_from_fsm_stage, is_addressed_to_fsm_stage}
use threlium.Irt.Filter.{iter_filtered}
use threlium.Task.Ops.{
  TaskOp, init_op, upsert_op, TasksUpsertToolArgs, parse_task_init_op, parse_tasks_upsert_op,
}
use threlium.Task.Ledger.{TaskLedger}
use threlium.Task.Reduce.{reduce_task_ops}

-- What the code reads through the mail library, msgspec and hashlib: the `<task-init>` part and the
-- `<system>` part of the letter at a path, the two decoders, and SHA-256.
pub record TaskLib : Type 0 where
  pub task_init_part : Text → Option Text
  pub system_part_text_from_path : Text → Text
  pub decode_task_init : Text → Option (List (Text × Text))
  pub decode_tasks_upsert : Text → Option TasksUpsertToolArgs
  pub sha256_hex : Text → Text

module _ (mail : MailLib) (lib : TaskLib) where
  open lib use {
    task_init_part, system_part_text_from_path, decode_task_init, decode_tasks_upsert, sha256_hex,
  }

  -- The operation that a letter carries.
  unfoldable pub op_of_snap : Snapshot → Option TaskOp
  unfolding is_sent_from_fsm_stage is_addressed_to_fsm_stage parse_task_init_op
      parse_tasks_upsert_op strip
  op_of_snap snap =
      if is_sent_from_fsm_stage mail snap enrich
      then elim (task_init_part snap.path) [
        | none ↦ none
        | some [] ↦ none
        | some (c ∷ raw) ↦
            elim (parse_task_init_op sha256_hex decode_task_init (c ∷ raw) snap.message_id_inner) [
              | none ↦ none
              | some op ↦ some (init_op op)
            ]
      ]
      else if is_addressed_to_fsm_stage mail snap tasks_upsert
      then elim (parse_tasks_upsert_op sha256_hex decode_tasks_upsert
          (strip (system_part_text_from_path snap.path)) snap.message_id_inner) [
            | none ↦ none
            | some op ↦ some (upsert_op op)
          ]
      else none

  -- The loop of `collect_task_ops`.
  unfoldable pub collect_loop : List Snapshot → List TaskOp
  unfolding op_of_snap
  collect_loop [] = []
  collect_loop (snap ∷ frame) = elim (op_of_snap snap) [
    | none ↦ collect_loop frame
    | some op ↦ op ∷ collect_loop frame
  ]

  unfoldable pub collect_task_ops : List Snapshot → List TaskOp
  unfolding collect_loop iter_filtered
  collect_task_ops chain = collect_loop (reverse (iter_filtered mail false chain))

  -- The field `task_ledger` of `crdt_ledger_state`.
  unfoldable pub task_ledger_at : List Snapshot → TaskLedger
  unfolding collect_task_ops reduce_task_ops
  task_ledger_at chain = reduce_task_ops (collect_task_ops chain)
