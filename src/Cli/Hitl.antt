-- ===== src/Cli/Hitl.antt =====
-- What letter a user replies to: `_classify_ingress_parent_routing` of threlium/states/ingress.py,
-- with the walk of threlium/types/ingress_hitl.py to the question that is replied to.
use threlium.Prelude.{
  ℕ, zero, suc, Bool, false, Option, none, some, List, [], ◌∷◌, any, is_empty, if◌then◌else◌,
  Result, ok, raise, value_error,
}
use threlium.Prelude.Text.{Text, strip}
use threlium.Prelude.Wire.{parse_present_optional}
use threlium.Stage.Names.{
  FsmStage, reasoning, ingress, enrich, subagent_intent, subagent_end, cli_hitl_out,
}
use threlium.Stage.Address.{MailLib}
use threlium.Irt.Snapshot.{names_stage, from_optional_raw}
use threlium.Irt.Chain.{NmMessage}

-- `HitlParentWithoutIntent` and `HitlParentWithIntent`
pub data HitlParentRouting : Type 0 where
  without_intent with_intent : HitlParentRouting

-- `_MAX_HITL_WALK_DEPTH` and `_NON_HITL_STAGES`
abbrev pub max_hitl_walk_depth : ℕ
max_hitl_walk_depth = 5

abbrev pub non_hitl_stages : List FsmStage
non_hitl_stages = reasoning ∷ ingress ∷ enrich ∷ subagent_intent ∷ subagent_end ∷ []

-- The next letter up: `_nm.header_field_optional(current, IN_REPLY_TO)` to `parent_inner`
unfoldable pub parent_inner : NmMessage → Option Text
parent_inner m = elim (parse_present_optional m.in_reply_to) [
  | none ↦ none
  | some irt_w ↦ from_optional_raw (some irt_w)
]

-- `db_find` is `first_notmuch_message_for_inner_id`.
module _ (mail : MailLib) (db_find : Text → Option NmMessage) where
  -- `notmuch_message_sent_from_fsm_stage`
  unfoldable pub message_sent_from : NmMessage → FsmStage → Bool
  message_sent_from m stage = elim m.from [
    | none ↦ false
    | some raw ↦ if is_empty (strip raw) then false else names_stage mail stage (some raw)
  ]

  -- The message that a letter replies to, `none` where its id or the message is missing.
  unfoldable pub parent_message : NmMessage → Option NmMessage
  parent_message m = elim (parent_inner m) [ none ↦ none | some inner ↦ db_find inner ]

  -- The loop of `classify_hitl_parent_notmuch`, over the rounds that are left.
  unfoldable pub hitl_loop : ℕ → NmMessage → HitlParentRouting
  hitl_loop zero current = without_intent
  hitl_loop (suc left) current =
      if message_sent_from current cli_hitl_out
      then with_intent
      else if any (message_sent_from current) non_hitl_stages
      then without_intent
      else elim (parent_message current) [
        | none ↦ without_intent
        | some next_msg ↦ hitl_loop left next_msg
      ]

  unfoldable pub classify_hitl_parent : NmMessage → HitlParentRouting
  classify_hitl_parent parent = hitl_loop max_hitl_walk_depth parent

  -- `_classify_ingress_parent_routing`, `none` for an orphan
  unfoldable pub classify_ingress_parent : Text → Result (Option HitlParentRouting)
  classify_ingress_parent irt_wire = elim (from_optional_raw (some irt_wire)) [
    | none ↦ raise value_error
    | some inner ↦
        ok (elim (db_find inner) [ none ↦ none | some parent ↦ some (classify_hitl_parent parent) ])
  ]
