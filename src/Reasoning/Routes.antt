-- ===== src/Reasoning/Routes.antt =====
-- `REASONING_TARGET_STAGES` of threlium/types/reasoning_routes.py, `compute_allowed_routes` of
-- threlium/states/reasoning.py, and the gate of threlium/formal_reason_gate.py that it asks.
use threlium.Prelude.{
  ℕ, ltb, Bool, true, false, not, ◌||◌, Option, none, some, List, [], ◌∷◌, any, if◌then◌else◌,
  Result, ok, raise, runtime_error, ◌>>=◌,
}
use threlium.Prelude.Text.{Text, text_eq, strip}
use threlium.Stage.Names.{
  FsmStage, value, cli_intent, thread_memory, global_memory, subagent_intent, reflect,
  response_append, response_edit, response_observe, response_finalize, formal_reason, memory_query,
  tasks_upsert,
}
use threlium.Stage
use threlium.Stage.Address.{MailLib}
use threlium.Irt.Snapshot.{Snapshot, is_sent_from_fsm_stage}
use threlium.Irt.Filter.{iter_filtered}

-- A stage among stages, by value.
unfoldable pub among : FsmStage → List FsmStage → Bool
unfolding value text_eq
among s stages = any (λ t. text_eq (value s) (value t)) stages

abbrev pub reasoning_target_stages : List FsmStage
reasoning_target_stages =
    cli_intent ∷ thread_memory ∷ global_memory ∷ subagent_intent ∷ reflect ∷ response_append
    ∷ response_edit ∷ response_observe ∷ response_finalize ∷ formal_reason ∷ memory_query
    ∷ tasks_upsert ∷ []

unfoldable pub compute_allowed_routes : Bool → ℕ → List FsmStage
compute_allowed_routes gate_active remaining =
    if ltb remaining 1
    then response_finalize ∷ []
    else if gate_active
    then formal_reason ∷ memory_query ∷ []
    else reasoning_target_stages

-- `FormalReasonErrorKind`, by whether it is `NONE`, and `FormalReasonOutcome`.
pub data FormalReasonErrorKind : Type 0 where
  no_error : FormalReasonErrorKind
  some_error : Text → FormalReasonErrorKind

pub data FormalReasonOutcome : Type 0 where
  technical_failed shacl_negative passed : FormalReasonOutcome

unfoldable pub compute_formal_reason_outcome :
    FormalReasonErrorKind → Bool → ℕ → Bool → Bool → FormalReasonOutcome
compute_formal_reason_outcome (some_error kind) conforms violations query derived = technical_failed
compute_formal_reason_outcome no_error conforms violations query derived =
    if query || derived
    then technical_failed
    else if not conforms || ltb 0 violations
    then shacl_negative
    else passed

unfoldable pub is_technical_failed : FormalReasonOutcome → Bool
is_technical_failed technical_failed = true
is_technical_failed shacl_negative = false
is_technical_failed passed = false

-- What the gate reads of a letter through the mail library and msgspec: the text of the single
-- `<system>` part at a path, `none` where the file cannot be read or has no such part, and the
-- outcome in its payload, `none` where it does not decode.
pub record FormalReasonLib : Type 0 where
  pub system_text : Text → Option Text
  pub decode_outcome : Text → Option FormalReasonOutcome

module _ (mail : MailLib) (lib : FormalReasonLib) where
  open lib use {system_text, decode_outcome}

  -- `_latest_formal_reason_output_snap`, over what `iter_irt_ancestors_filtered` yields.
  unfoldable pub first_formal_reason : List Snapshot → Option Snapshot
  unfolding is_sent_from_fsm_stage
  first_formal_reason [] = none
  first_formal_reason (snap ∷ snaps) =
      if is_sent_from_fsm_stage mail snap formal_reason
      then some snap
      else first_formal_reason snaps

  -- `formal_reason_result_from_formal_reason_email`
  unfoldable pub outcome_at : Snapshot → Result (Option FormalReasonOutcome)
  unfolding strip
  outcome_at snap = elim (system_text snap.path) [
    | none ↦ ok none
    | some text ↦ elim (strip text) [
      | [] ↦ ok none
      | c ∷ body ↦ elim (decode_outcome (c ∷ body)) [
        | none ↦ raise runtime_error
        | some outcome ↦ ok (some outcome)
      ]
    ]
  ]

  -- `formal_reason_gate_active`, on the chain of the letter, `none` where it has no id.
  unfoldable pub formal_reason_gate_active : Option (List Snapshot) → Result Bool
  unfolding first_formal_reason outcome_at iter_filtered is_technical_failed
  formal_reason_gate_active none = ok false
  formal_reason_gate_active (some chain) =
      elim (first_formal_reason (iter_filtered mail true chain)) [
        | none ↦ ok false
        | some snap ↦ outcome_at snap >>= λ outcome. elim outcome [
          | none ↦ ok false
          | some o ↦ ok (is_technical_failed o)
        ]
      ]

module _ (mail : MailLib) where
  -- `ReasoningToolFunctionName.target_stage`
  unfoldable pub target_stage : Text → Result FsmStage
  unfolding among Stage.Address.parse
  target_stage name = Stage.Address.parse mail (some name) >>= λ stage.
      if among stage reasoning_target_stages then ok stage else raise runtime_error
