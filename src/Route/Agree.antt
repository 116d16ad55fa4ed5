-- ===== src/Route/Agree.antt =====
-- The router of the answers and the stages behind it agree on the route, and the router keeps the
-- answers of subagents inside.
use threlium.Prelude.{
  ◌≡◌, refl, sym, ap, ◌∙◌, true, false, ◌⊎◌, inl, inr, Option, some, List, ◌∷◌, ◌++◌, arith, Result,
  ok, >>=-eq-ok, ok-injective, Bool-cases,
}
use threlium.Prelude.Int.{ℤ, is_positive}
use threlium.Prelude.Text.{Text, codes}
use threlium.Prelude.Wire.{parse, kv_value}
use threlium.Stage.Names.{FsmStage, value, subagent_end, response_finalize}
use threlium.Stage.Address.{MailLib}
use threlium.Irt.Snapshot.{Snapshot}
use threlium.Irt.Filter.{has_route_tag}
use threlium.Irt.Frame.{Frame, Ending, at_root, at_own_task}
use threlium.Irt.Depth.{classify-Frame}
use threlium.Hop.Line.{IntText}
use threlium.Emit.Patch.{Incoming, Managed, managed_patch_simple_fsm_step}
use threlium.Route.Wire.{IngressRoute, RouteLib}
use threlium.Route.Resolve.{
  BridgeIngressChannel, email, telegram, matrix, isomorph, slug_of, egress_of,
  egress_addr_for_channel, ResolvedRoute, EgressAncestorSnapshot, egress_snap_from_resolved,
  egress_fsm_start_inner, is_type, route_from_irt_snapshots, resolve_route_for_egress_fsm,
  resolve_egress_task_route_ancestor,
}
use threlium.Route.Router.{
  email_message_sent_from_fsm_stage, require_resolved_channel, classify_subagent_depth_from_email,
  emit, route_out, egress_router_main,
}
use threlium.Route.Typed.{RouteLaws, IsRouteOf, chain-IsResolved, route-untagged}

-- Lowering leaves the slugs of the channels alone.
abbrev pub LowersSlugs : MailLib → Type 0
LowersSlugs mail = (c : BridgeIngressChannel) → mail.lower (slug_of c) ≡ slug_of c

egress_addr-slug_of :
    (mail : MailLib)
    → LowersSlugs mail
    → (c : BridgeIngressChannel)
    → egress_addr_for_channel mail (parse (some (slug_of c))) ≡ ok (egress_of c)
unfolding egress_addr_for_channel parse kv_value slug_of
egress_addr-slug_of mail low email = rw (low email) refl
egress_addr-slug_of mail low telegram = rw (low telegram) refl
egress_addr-slug_of mail low matrix = rw (low matrix) refl
egress_addr-slug_of mail low isomorph = rw (low isomorph) refl

require_resolved_channel-eq :
    (resolved : ResolvedRoute) {slug : Text}
    → require_resolved_channel resolved ≡ ok slug
    → resolved.channel ≡ slug
unfolding require_resolved_channel
require_resolved_channel-eq resolved h = ground arith

value-egress_of : (c : BridgeIngressChannel) → value (egress_of c) ≡ codes "egress_" ++ slug_of c
unfolding value egress_of slug_of
value-egress_of email = refl
value-egress_of _ = refl

-- The stage that the router takes for a channel that it has resolved.
stage_is :
    (mail : MailLib)
    → LowersSlugs mail
    → (resolved : ResolvedRoute) (c : BridgeIngressChannel) (slug : Text) (addr : FsmStage)
      {stage : FsmStage}
    → resolved.channel ≡ parse (some (slug_of c))
    → require_resolved_channel resolved ≡ ok slug
    → egress_addr_for_channel mail slug ≡ ok addr
    → addr ≡ stage
    → stage ≡ egress_of c
stage_is mail low resolved c slug addr channel q e same =
    let e' =
      rw (← require_resolved_channel-eq resolved q, channel, egress_addr-slug_of mail low c) at e in
    sym same ∙ sym (ok-injective e')

module _ (mail : MailLib) (lib : RouteLib) (it : IntText) (budget_root : ℤ)
    (ancestors : Text → Result (List Snapshot)) where
  -- Where an answer of response_finalize goes for a frame that ends so.
  abbrev pub goes : Incoming → Ending → Result (FsmStage × Managed)
  goes msg (at_own_task i) = emit mail lib it budget_root ancestors msg subagent_end
  goes msg at_root = route_out mail lib it budget_root ancestors msg

  -- On a letter from response_finalize, with its message id and a chain of ancestors on which the
  -- frame ends so, the router sends the answer to subagent_end where the frame ends at the agent's
  -- own task, and out along the route of the thread where it ends at the root.
  pub egress_router_main-Frame :
      (msg : Incoming) {start : Text} {chain seen : List Snapshot} {k : Ending}
      → email_message_sent_from_fsm_stage mail msg response_finalize ≡ true
      → egress_fsm_start_inner msg.message_id ≡ ok start
      → ancestors start ≡ ok chain
      → Frame mail chain seen k
      → egress_router_main mail lib it budget_root ancestors msg ≡ goes msg k
  unfolding egress_router_main classify_subagent_depth_from_email
  egress_router_main-Frame msg {k = at_root} from_finalize s a f =
      rw (from_finalize, s, a, classify-Frame mail f) refl
  egress_router_main-Frame msg {k = at_own_task i} from_finalize s a f =
      rw (from_finalize, s, a, classify-Frame mail f) refl

  -- The stage behind the router, on a letter whose chain is that of the router's letter behind the
  -- letter itself, resolves a route of the type that it expects.
  abbrev pub Accepts : Option Text → FsmStage → Type 0
  Accepts message_id stage =
      (c : BridgeIngressChannel) × (found : IngressRoute × EgressAncestorSnapshot) × (value stage
        ≡ codes "egress_" ++ slug_of c)
      × (resolve_egress_task_route_ancestor lib ancestors message_id c ≡ ok found)
      × IsRouteOf c found.0

  module _ (laws : RouteLaws lib) (low : LowersSlugs mail) (msg : Incoming) {start : Text}
      {chain : List Snapshot} (s : egress_fsm_start_inner msg.message_id ≡ ok start)
      (a : ancestors start ≡ ok chain) (next_id : Option Text) {next_start : Text} (snap : Snapshot)
      (s' : egress_fsm_start_inner next_id ≡ ok next_start)
      (a' : ancestors next_start ≡ ok (snap ∷ chain)) (untagged : has_route_tag snap ≡ false) where
    resolved_next :
        (resolved : ResolvedRoute)
        → route_from_irt_snapshots lib chain ≡ ok resolved
        → (c : BridgeIngressChannel) → is_type c resolved.api_payload ≡ true
        → resolve_egress_task_route_ancestor lib ancestors next_id c
          ≡ ok (resolved.api_payload, egress_snap_from_resolved resolved)
    unfolding resolve_egress_task_route_ancestor resolve_route_for_egress_fsm
    resolved_next resolved r c typed =
        rw (s', a', route-untagged lib laws snap chain untagged, r, typed) refl

    route_out-Accepts :
        {stage : FsmStage} {headers : Managed}
        → route_out mail lib it budget_root ancestors msg ≡ ok (stage, headers)
        → Accepts next_id stage
    unfolding route_out resolve_route_for_egress_fsm require_resolved_channel
    route_out-Accepts {stage} h =
        let (resolved, r, rest) =
          >>=-eq-ok (route_from_irt_snapshots lib chain) _ (rw (s, a) at h) in
        let (c, good, channel) = chain-IsResolved lib laws chain r in
        let (slug, q, rest') = >>=-eq-ok (require_resolved_channel resolved) _ rest in
        let (addr, e, rest'') = >>=-eq-ok (egress_addr_for_channel mail slug) _ rest' in
        let (headers', m, same) =
          >>=-eq-ok (managed_patch_simple_fsm_step it budget_root msg) _ rest'' in
        (
          c,
          (resolved.api_payload, egress_snap_from_resolved resolved),
          ap value (
                stage_is mail low resolved c slug addr channel q e
                  (ap (λ p. p.0) (ok-injective same)))
              ∙ value-egress_of c,
          resolved_next resolved r c good.0,
          good,
        )

    -- If msgspec decodes a route with the channel that stands in its JSON and lower leaves the slugs
    -- alone, then a letter that the router emits goes to subagent_end, or to the stage that is named after a
    -- channel; and that stage, on a letter whose chain is that of the router's letter behind a letter that is
    -- not tagged `route`, resolves a route of its own type.
    pub egress_router_main-Accepts :
        {stage : FsmStage} {headers : Managed}
        → egress_router_main mail lib it budget_root ancestors msg ≡ ok (stage, headers)
        → (stage ≡ subagent_end) ⊎ Accepts next_id stage
    unfolding egress_router_main emit
    egress_router_main-Accepts {stage} h =
        elim (Bool-cases (email_message_sent_from_fsm_stage mail msg response_finalize)) [
          | inr other ↦ inr (route_out-Accepts (rw other at h))
          | inl finalize ↦
              let (depth, d, rest) =
                >>=-eq-ok
                  (classify_subagent_depth_from_email mail lib it budget_root ancestors
                    msg.message_id)
                  _ (rw finalize at h) in
              elim (Bool-cases (is_positive depth)) [
                | inr at_the_root ↦ inr (route_out-Accepts (rw at_the_root at rest))
                | inl inside ↦
                    let (headers', m, same) =
                      >>=-eq-ok (managed_patch_simple_fsm_step it budget_root msg) _
                        (rw inside at rest) in
                    inl (sym (ap (λ p. p.0) (ok-injective same)))
              ]
        ]
