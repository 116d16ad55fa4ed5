-- ===== src/Route/Resolve.antt =====
-- threlium/ingress_route_resolve.py: the route of the nearest ancestor that is tagged `route`, and
-- the channel that it stands for. A chain of ancestors is that of Irt, from the letter itself.
use threlium.Prelude.{
  Bool, true, false, Option, none, some, List, [], ◌∷◌, is_empty, if◌then◌else◌, Result, ok, raise,
  runtime_error, ◌>>=◌, not,
}
use threlium.Prelude.Text.{Text, codes, text_eq, strip}
use threlium.Prelude.Wire.{parse, parse_present_optional}
use threlium.Stage.Names.{FsmStage, egress_email, egress_telegram, egress_matrix, egress_isomorph}
use threlium.Stage.Address.{MailLib}
use threlium.Irt.Snapshot.{Snapshot, from_optional_raw}
use threlium.Irt.Filter.{has_route_tag}
use threlium.Route.Wire.{
  IngressRoute, email_route, telegram_route, matrix_route, isomorph_route, channel_of, RouteLib,
  parse_route_from_optional_header,
}

pub data BridgeIngressChannel : Type 0 where
  email telegram matrix isomorph : BridgeIngressChannel

-- The value of a member.
unfoldable pub slug_of : BridgeIngressChannel → Text
slug_of email = codes "email"
slug_of telegram = codes "telegram"
slug_of matrix = codes "matrix"
slug_of isomorph = codes "isomorph"

-- `BridgeIngressChannel(slug)`, `none` where Python raises `ValueError`
unfoldable pub channel_of_slug : Text → Option BridgeIngressChannel
unfolding slug_of text_eq
channel_of_slug slug =
    if text_eq slug (slug_of email)
    then some email
    else if text_eq slug (slug_of telegram)
    then some telegram
    else if text_eq slug (slug_of matrix)
    then some matrix
    else if text_eq slug (slug_of isomorph)
    then some isomorph
    else none

-- The branches at the end of `egress_addr_for_channel`
unfoldable pub egress_of : BridgeIngressChannel → FsmStage
egress_of telegram = egress_telegram
egress_of matrix = egress_matrix
egress_of isomorph = egress_isomorph
egress_of email = egress_email

unfoldable pub egress_addr_for_channel : MailLib → Text → Result FsmStage
unfolding strip channel_of_slug egress_of
egress_addr_for_channel mail slug =
    if is_empty slug
    then raise runtime_error
    else elim (channel_of_slug (mail.lower (strip slug))) [
      | none ↦ raise runtime_error
      | some ch ↦ ok (egress_of ch)
    ]

pub record ResolvedRoute : Type 0 where
  pub channel : Text
  pub api_payload : IngressRoute
  pub message_id_inner : Text
  pub route_wire : Text
  pub ancestor_references_wire : Option Text
  pub ancestor_subject_wire : Option Text

pub record EgressAncestorSnapshot : Type 0 where
  pub route : IngressRoute
  pub ancestor_mid : Text
  pub header_references : Option Text
  pub header_subject : Option Text

-- `_egress_snap_from_resolved`
unfoldable pub egress_snap_from_resolved : ResolvedRoute → EgressAncestorSnapshot
egress_snap_from_resolved resolved = record {
  route = resolved.api_payload;
  ancestor_mid = resolved.message_id_inner;
  header_references = resolved.ancestor_references_wire;
  header_subject = resolved.ancestor_subject_wire;
}

-- `egress_fsm_start_inner_from_email`
unfoldable pub egress_fsm_start_inner : Option Text → Result Text
unfolding parse_present_optional from_optional_raw
egress_fsm_start_inner message_id = elim (parse_present_optional message_id) [
  | none ↦ raise runtime_error
  | some mid_w ↦ elim (from_optional_raw (some mid_w)) [
    | none ↦ raise runtime_error
    | some leaf ↦ ok leaf
  ]
]

-- `isinstance(r, expect_type)`
unfoldable pub is_type : BridgeIngressChannel → IngressRoute → Bool
is_type email (email_route r) = true
is_type telegram (telegram_route r) = true
is_type matrix (matrix_route r) = true
is_type isomorph (isomorph_route r) = true
is_type _ _ = false

module _ (lib : RouteLib) where
  -- `_resolve_from_route_fields` of a letter that is tagged
  unfoldable pub resolve_tagged : Snapshot → Result ResolvedRoute
  unfolding parse_route_from_optional_header parse channel_of
  resolve_tagged snap = elim snap.header_route [
    | none ↦ raise runtime_error
    | some rw_wire ↦ parse_route_from_optional_header lib (some rw_wire) >>= elim [
      | none ↦ raise runtime_error
      | some ing ↦ ok (record {
        channel = parse (some (channel_of ing));
        api_payload = ing;
        message_id_inner = snap.message_id_inner;
        route_wire = rw_wire;
        ancestor_references_wire = snap.header_references;
        ancestor_subject_wire = snap.header_subject;
      })
    ]
  ]

  -- `_try_resolve_from_snapshot`
  unfoldable pub try_resolve_from_snapshot : Snapshot → Result (Option ResolvedRoute)
  unfolding has_route_tag resolve_tagged
  try_resolve_from_snapshot snap =
      if not (has_route_tag snap)
      then ok none
      else (resolve_tagged snap >>= λ resolved. ok (some resolved))

  -- `resolve_route_from_in_reply_to_ancestors` and `_route_from_irt_snapshots`
  unfoldable pub route_from_irt_snapshots : List Snapshot → Result ResolvedRoute
  unfolding try_resolve_from_snapshot
  route_from_irt_snapshots [] = raise runtime_error
  route_from_irt_snapshots (snap ∷ chain) =
      let rest = route_from_irt_snapshots chain in
      try_resolve_from_snapshot snap >>= elim [ none ↦ rest | some resolved ↦ ok resolved ]

  module _ (ancestors : Text → Result (List Snapshot)) where
    -- `resolve_route_for_egress_fsm_from_email`
    unfoldable pub resolve_route_for_egress_fsm : Option Text → Result ResolvedRoute
    unfolding egress_fsm_start_inner route_from_irt_snapshots
    resolve_route_for_egress_fsm message_id = do
      start_inner ← egress_fsm_start_inner message_id
      chain ← ancestors start_inner
      route_from_irt_snapshots chain

    -- `resolve_egress_task_route_ancestor`; the types of routes are those of the channels.
    unfoldable pub resolve_egress_task_route_ancestor :
        Option Text → BridgeIngressChannel → Result (IngressRoute × EgressAncestorSnapshot)
    unfolding resolve_route_for_egress_fsm is_type egress_snap_from_resolved
    resolve_egress_task_route_ancestor message_id expect_type =
        resolve_route_for_egress_fsm message_id >>= λ resolved.
        (if not (is_type expect_type resolved.api_payload)
          then raise runtime_error
          else ok (resolved.api_payload, egress_snap_from_resolved resolved))
