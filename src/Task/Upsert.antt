-- ===== src/Task/Upsert.antt =====
-- `main` of threlium/states/tasks_upsert.py: an operation is let through where it is valid against
-- the ledger before it.
use threlium.Prelude.{
  ◌≡◌, Option, none, some, List, [], ◌∷◌, ◌++◌, All, Result, ok, raise, ◌>>=◌, >>=-eq-ok,
  ok-injective, Option-cases, Result-cases, inl, inr,
}
use threlium.Prelude.Text.{Text, strip}
use threlium.Stage.Address.{MailLib}
use threlium.Irt.Snapshot.{Snapshot}
use threlium.Response.Collect.{ResponseLib, collect_ops}
use threlium.Task.Ledger.{TaskLedger, content_ids}
use threlium.Task.Ops.{TaskOp, upsert_op, TasksUpsertOp, TasksUpsertToolArgs, from_tool_args}
use threlium.Task.Reduce.{reduce_loop, reduce_task_ops}
use threlium.Task.Collect.{TaskLib, collect_task_ops}
use threlium.Task.Validated.{IsKept, from_tool_args-IsKept}

-- What the stage emits: a notice with the ledger before the letter, or the letter on its way.
pub data UpsertOutcome : Type 0 where
  enrich_error : TaskLedger → UpsertOutcome
  preserving : UpsertOutcome

module _ (mail : MailLib) (responses : ResponseLib) (lib : TaskLib) where
  -- The `task_ops` of `crdt_ledger_state`, of the chain of the parent, if there is one.
  unfoldable pub prior_ops : Option (List Snapshot) → Result (List TaskOp)
  unfolding collect_task_ops collect_ops
  prior_ops none = ok []
  prior_ops (some chain) =
      collect_ops mail responses chain >>= λ ops. ok (collect_task_ops mail lib chain)

  -- The body of the `try`, and its `except`.
  unfoldable pub judge_body : Text → Text → List TaskOp → UpsertOutcome
  unfolding strip from_tool_args content_ids reduce_task_ops
  judge_body system_text inner ops = elim (lib.decode_tasks_upsert (strip system_text)) [
    | none ↦ enrich_error (reduce_task_ops ops)
    | some args ↦
        elim (from_tool_args lib.sha256_hex args inner (content_ids (reduce_task_ops ops))) [
          | raise e ↦ enrich_error (reduce_task_ops ops)
          | ok op ↦ preserving
        ]
  ]

  unfoldable pub tasks_upsert_main : Text → Text → Option (List Snapshot) → Result UpsertOutcome
  unfolding prior_ops judge_body
  tasks_upsert_main system_text inner parent_chain =
      prior_ops parent_chain >>= λ ops. ok (judge_body system_text inner ops)

  -- A letter that `tasks_upsert` lets through takes effect. Where `main` answers `preserving`, the
  -- body decodes to arguments that `from_tool_args` accepts, and after their operation, on top of
  -- those before the letter, every subtask that it updates is there, at least as far as it says.
  pub tasks_upsert_main-preserving :
      (system_text inner : Text) (parent_chain : Option (List Snapshot))
      → tasks_upsert_main system_text inner parent_chain ≡ ok preserving
      → (ops : List TaskOp) × (op : TasksUpsertOp) × (args : TasksUpsertToolArgs) × (prior_ops
            parent_chain
          ≡ ok ops)
        × (lib.decode_tasks_upsert (strip system_text) ≡ some args)
        × (from_tool_args lib.sha256_hex args inner (content_ids (reduce_task_ops ops)) ≡ ok op)
        × All (IsKept (reduce_loop (ops ++ (upsert_op op ∷ []))).states) op.updates
  unfolding tasks_upsert_main judge_body
  tasks_upsert_main-preserving system_text inner parent_chain h =
      let (ops, e, f) = >>=-eq-ok (prior_ops parent_chain) _ h in
      let verdict = ok-injective f in
      elim (Option-cases (lib.decode_tasks_upsert (strip system_text))) [
        | inl d ↦ let refused = rw (judge_body, d) at verdict in cc
        | inr (args, d) ↦
            elim (Result-cases
              (from_tool_args lib.sha256_hex args inner (content_ids (reduce_task_ops ops)))) [
                | inr (x, a) ↦ let refused = rw (judge_body, d, a) at verdict in cc
                | inl (op, a) ↦ (
                  ops,
                  op,
                  args,
                  e,
                  d,
                  a,
                  from_tool_args-IsKept lib.sha256_hex ops args inner op a,
                )
              ]
      ]
