-- ===== src/Task/Ops.antt =====
-- threlium/task/ops.py: the operations of the ledger, made from the arguments of a tool call and
-- from the parts of a message. SHA-256 and the JSON codec of msgspec are parameters; a message id
-- and a content id are texts.
use threlium.Prelude.{
  Bool, false, not, ◌&&◌, Option, none, some, List, [], ◌∷◌, map, Result, ok, raise, ◌>>=◌, ◌>>◌,
  raise_if, runtime_error, is_empty,
}
use threlium.Prelude.Text.{Text, text_key, strip}
use threlium.Prelude.Wire.{require, parse_present_optional}
use threlium.Prelude.Sort.{contains}
use threlium.Task.Status.{SubtaskStatus}
use threlium.Task.Words.{from_text}

pub record TaskSubtaskDef : Type 0 where
  pub content_id : Text
  pub text : Text

pub record NewSubtask : Type 0 where
  pub content_id : Text
  pub text : Text
  pub status : SubtaskStatus

pub record SubtaskStatusUpdate : Type 0 where
  pub content_id : Text
  pub status : SubtaskStatus

pub record TasksUpsertOp : Type 0 where
  pub additions : List NewSubtask
  pub updates : List SubtaskStatusUpdate
  pub discovery_append : Option Text
  pub next_action : Option Text
  pub blockers : Option Text
  pub allow_finalize_with_blocker : Bool
  pub message_id_inner : Text

pub record TaskInitOp : Type 0 where
  pub subtasks : List TaskSubtaskDef
  pub message_id_inner : Text

-- `TaskInitOp | TasksUpsertOp`
pub data TaskOp : Type 0 where
  init_op : TaskInitOp → TaskOp
  upsert_op : TasksUpsertOp → TaskOp

-- The arguments of the tool (types/reasoning_tool_args.py).
pub record NewSubtaskArg : Type 0 where
  pub text : Text
  pub status : SubtaskStatus

pub record SubtaskStatusUpdateArg : Type 0 where
  pub content_id : Text
  pub status : SubtaskStatus

pub record TasksUpsertToolArgs : Type 0 where
  pub reasoning : Text
  pub new_subtasks : List NewSubtaskArg
  pub subtask_updates : List SubtaskStatusUpdateArg
  pub discovery_append : Option Text
  pub next_action : Option Text
  pub blockers : Option Text
  pub allow_finalize_with_blocker : Bool

-- `known_content_ids is not None and cid not in known_content_ids`
unfoldable pub is_unknown : Option (List Text) → Text → Bool
unfolding contains
is_unknown none cid = false
is_unknown (some known) cid = not (contains cid known)

-- The loop over `args.subtask_updates`.
unfoldable pub build_updates :
    Option (List Text) → List SubtaskStatusUpdateArg → Result (List SubtaskStatusUpdate)
unfolding require is_unknown
build_updates known [] = ok []
build_updates known (su ∷ rest) = do
  cid ← require (some su.content_id)
  raise_if (is_unknown known cid) runtime_error
  updates ← build_updates known rest
  ok (record { content_id = cid; status = su.status } ∷ updates)

module _ (sha256_hex : Text → Text) where
  -- The loop over `args.new_subtasks`.
  unfoldable pub build_additions : List NewSubtaskArg → Result (List NewSubtask)
  unfolding require
  build_additions [] = ok []
  build_additions (na ∷ rest) = do
    text ← require (some na.text)
    additions ← build_additions rest
    ok (
        record { content_id = from_text sha256_hex text; text = text; status = na.status }
        ∷ additions)

  unfoldable pub build_from_args :
      TasksUpsertToolArgs → Text → Option (List Text) → Result TasksUpsertOp
  unfolding build_additions build_updates parse_present_optional
  build_from_args args message_id_inner known_content_ids = do
    additions ← build_additions args.new_subtasks
    updates ← build_updates known_content_ids args.subtask_updates
    raise_if (is_empty additions && is_empty updates) runtime_error
    ok (record {
      additions = additions;
      updates = updates;
      discovery_append = parse_present_optional args.discovery_append;
      next_action = parse_present_optional args.next_action;
      blockers = parse_present_optional args.blockers;
      allow_finalize_with_blocker = args.allow_finalize_with_blocker;
      message_id_inner = message_id_inner;
    })

  -- `TasksUpsertOp.from_tool_args`
  unfoldable pub from_tool_args : TasksUpsertToolArgs → Text → List Text → Result TasksUpsertOp
  unfolding build_from_args
  from_tool_args args message_id_inner known_content_ids =
      build_from_args args message_id_inner (some known_content_ids)

  -- `decode` is `msgspec.json.decode(…, type=TasksUpsertToolArgs)`, `none` where it raises.
  unfoldable pub parse_tasks_upsert_op :
      (Text → Option TasksUpsertToolArgs) → Text → Text → Option TasksUpsertOp
  unfolding build_from_args
  parse_tasks_upsert_op decode body_text message_id_inner = elim (strip body_text) [
    | [] ↦ none
    | c ∷ raw ↦ elim (decode (c ∷ raw)) [
      | none ↦ none
      | some args ↦ elim (build_from_args args message_id_inner none) [
        | ok op ↦ some op
        | raise e ↦ none
      ]
    ]
  ]

  -- The loop of `parse_task_init_op`: a subtask with no text is left out, and its content id on the
  -- wire is not read.
  unfoldable pub init_defs : List (Text × Text) → List TaskSubtaskDef
  unfolding require
  init_defs [] = []
  init_defs ((wire_content_id, text) ∷ rest) =
      let defs = init_defs rest in
      elim (require (some text)) [
        | raise e ↦ defs
        | ok t ↦ record { content_id = from_text sha256_hex t; text = t } ∷ defs
      ]

  -- `decode` is `msgspec.json.decode(…, type=_TaskInitWire)`: the pairs of a content id and a text.
  unfoldable pub parse_task_init_op :
      (Text → Option (List (Text × Text))) → Text → Text → Option TaskInitOp
  unfolding init_defs
  parse_task_init_op decode body_text message_id_inner = elim (strip body_text) [
    | [] ↦ none
    | c ∷ raw ↦ elim (decode (c ∷ raw)) [
      | none ↦ none
      | some subtasks ↦ elim (init_defs subtasks) [
        | [] ↦ none
        | d ∷ defs ↦ some (record { subtasks = d ∷ defs; message_id_inner = message_id_inner })
      ]
    ]
  ]

-- `encode` is `msgspec.json.encode(wire).decode("utf-8")`.
unfoldable pub serialize_task_init : (List (Text × Text) → Text) → List TaskSubtaskDef → Text
serialize_task_init encode [] = []
serialize_task_init encode (d ∷ defs) =
    encode (map (λ (x : TaskSubtaskDef). (x.content_id, x.text)) (d ∷ defs))
