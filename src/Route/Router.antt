-- ===== src/Route/Router.antt =====
-- `main` of threlium/states/egress_router.py: where an answer goes.
use threlium.Prelude.{
  Bool, false, Option, none, some, List, is_empty, if◌then◌else◌, Result, ok, raise, runtime_error,
  ◌>>=◌,
}
use threlium.Prelude.Int.{ℤ, is_positive}
use threlium.Prelude.Text.{Text, strip}
use threlium.Stage.Names.{FsmStage, response_finalize, subagent_end}
use threlium.Stage.Address.{MailLib}
use threlium.Irt.Snapshot.{Snapshot, names_stage}
use threlium.Irt.Depth.{classify_subagent_depth}
use threlium.Hop.Line.{IntText}
use threlium.Emit.Patch.{Incoming, Managed, managed_patch_simple_fsm_step}
use threlium.Route.Wire.{RouteLib}
use threlium.Route.Resolve.{
  ResolvedRoute, egress_addr_for_channel, egress_fsm_start_inner, resolve_route_for_egress_fsm,
}

-- `email_message_sent_from_fsm_stage`
unfoldable pub email_message_sent_from_fsm_stage : MailLib → Incoming → FsmStage → Bool
unfolding strip names_stage
email_message_sent_from_fsm_stage mail msg stage = elim msg.from [
  | none ↦ false
  | some raw ↦ if is_empty (strip raw) then false else names_stage mail stage (some raw)
]

-- `_require_resolved_channel`
unfoldable pub require_resolved_channel : ResolvedRoute → Result Text
require_resolved_channel route =
    if is_empty route.channel then raise runtime_error else ok route.channel

module _ (mail : MailLib) (lib : RouteLib) (it : IntText) (budget_root : ℤ)
    (ancestors : Text → Result (List Snapshot)) where
  -- `classify_subagent_depth_from_email`
  unfoldable pub classify_subagent_depth_from_email : Option Text → Result ℤ
  unfolding egress_fsm_start_inner classify_subagent_depth
  classify_subagent_depth_from_email message_id = egress_fsm_start_inner message_id >>= λ inner.
      ancestors inner >>= λ chain. ok (classify_subagent_depth mail chain)

  -- `emit_transition_simple_step_preserving_payload`: the stage and the managed headers.
  unfoldable pub emit : Incoming → FsmStage → Result (FsmStage × Managed)
  unfolding managed_patch_simple_fsm_step
  emit msg to_addr =
      managed_patch_simple_fsm_step it budget_root msg >>= λ headers. ok (to_addr, headers)

  -- The three branches behind the depth: each resolves the channel and goes to its stage.
  unfoldable pub route_out : Incoming → Result (FsmStage × Managed)
  unfolding resolve_route_for_egress_fsm require_resolved_channel egress_addr_for_channel emit
  route_out msg = do
    route ← resolve_route_for_egress_fsm lib ancestors msg.message_id
    channel ← require_resolved_channel route
    addr ← egress_addr_for_channel mail channel
    emit msg addr

  unfoldable pub egress_router_main : Incoming → Result (FsmStage × Managed)
  unfolding email_message_sent_from_fsm_stage classify_subagent_depth_from_email emit route_out
  egress_router_main msg =
      if email_message_sent_from_fsm_stage mail msg response_finalize
      then (classify_subagent_depth_from_email msg.message_id >>= λ depth.
          if is_positive depth then emit msg subagent_end else route_out msg)
      else route_out msg
