-- ===== src/Irt/Tests.antt =====
-- Runs of the walks over a chain.
use threlium.Prelude.{
  some-injective, ok-injective, ap, ◌∙◌, ◌≡◌, refl, true, false, Option, none, some, List, [], ◌∷◌,
  ok, arith, raise, Error, runtime_error, ◌⊎◌, if◌then◌else◌,
}
use threlium.Prelude.Text.{Text, codes, text_eq, text_key, strip}
use threlium.Prelude.Int.{pos}
use threlium.Prelude.Sort.{contains}
use threlium.Prelude.Distinct.{distinct}
use threlium.Prelude.Wire.{parse, parse_present_optional, parse_single_line}
use threlium.Stage.Names.{
  FsmStage, rfc822_mailbox, ingress, reasoning, subagent_intent, subagent_end,
}
use threlium.Stage.Address.{MailLib}
use threlium.Irt.Snapshot.{
  from_optional_raw, in_reply_to_inner, Snapshot, plain, intent, end, subagent_marker,
}
use threlium.Irt.Filter.{iter_filtered}
use threlium.Irt.Frame.{
  Frame, empty, message, own_task, own, child, at_own_task, iter_filtered-Frame,
}
use threlium.Irt.Depth.{
  classify_subagent_depth, find_matching_subagent_intent_ancestor, parent_hop_headers,
  classify-Frame, find-Frame,
}
use threlium.Irt.Chain.{
  NmMessage, require_inner_message_id, materialize_irt_chain, materialize_loop, visit,
  require_matching_indexed_mid, equals_case_insensitive, snapshot_from_nm_message,
}
use threlium.Irt.Materialize.{IsIndexed}
use threlium.Irt.Walk.{IsChain, IsStuck, folded_ids, materialize_irt_chain-IsWalked}

abbrev plain_mail : MailLib
plain_mail = record { lower = λ t. t; casefold = λ t. t; getaddresses = λ t. t ∷ [] }

-- A message that a stage has sent.
abbrev from_stage : FsmStage → List Text → Snapshot
from_stage stage tags = record {
  message_id_inner = codes "m";
  path = codes "p";
  tags = tags;
  header_from = some (rfc822_mailbox stage);
  header_to = none;
  header_route = none;
  header_references = none;
  header_in_reply_to = some (codes "<parent>");
  header_subject = none;
}

-- A reasoning step, after a subagent has come back, inside a subagent.
abbrev nested_chain : List Snapshot
nested_chain =
    from_stage reasoning []
    ∷ from_stage subagent_end []
    ∷ from_stage reasoning []
    ∷ from_stage subagent_intent []
    ∷ from_stage subagent_intent []
    ∷ from_stage ingress (codes "route" ∷ [])
    ∷ []

abbrev nested_frame : List Snapshot
nested_frame =
    from_stage reasoning []
    ∷ from_stage subagent_end []
    ∷ from_stage subagent_intent []
    ∷ from_stage subagent_intent []
    ∷ []

reasoning-plain : subagent_marker plain_mail (from_stage reasoning []) ≡ plain
unfolding subagent_marker rfc822_mailbox strip text_eq
reasoning-plain = refl

intent-intent : subagent_marker plain_mail (from_stage subagent_intent []) ≡ intent
unfolding subagent_marker rfc822_mailbox strip text_eq
intent-intent = refl

end-end : subagent_marker plain_mail (from_stage subagent_end []) ≡ end
unfolding subagent_marker rfc822_mailbox strip text_eq
end-end = refl

nested_chain-Frame :
    Frame plain_mail nested_chain nested_frame (at_own_task (from_stage subagent_intent []))
nested_chain-Frame = own reasoning-plain (
    child (from_stage subagent_end []) (from_stage subagent_intent [])
      (from_stage reasoning [] ∷ [])
      (from_stage subagent_intent [] ∷ from_stage ingress (codes "route" ∷ []) ∷ []) end-end
      (message reasoning-plain empty) intent-intent (own_task intent-intent))

iter_filtered-Frame_example : iter_filtered plain_mail false nested_chain ≡ nested_frame
iter_filtered-Frame_example = iter_filtered-Frame plain_mail nested_chain-Frame

classify-Frame_example : classify_subagent_depth plain_mail nested_chain ≡ pos 1
classify-Frame_example = classify-Frame plain_mail nested_chain-Frame

abbrev parent_hop : Text → Option (Option Text)
parent_hop inner = if text_eq inner (codes "parent") then some (some (codes "7 3")) else none

find-Frame_example :
    find_matching_subagent_intent_ancestor plain_mail parent_hop nested_chain ≡ ok (codes "7 3")
unfolding in_reply_to_inner strip parent_hop_headers parse text_eq
find-Frame_example = find-Frame plain_mail parent_hop nested_chain-Frame

-- An index with one message, which replies to itself.
abbrev loop_message : NmMessage
loop_message = record {
  messageid = codes "a";
  path = codes "p";
  tags = [];
  from = none;
  to = none;
  route = none;
  references = none;
  in_reply_to = some (codes "<a>");
  subject = none;
}

abbrev loop_index : Text → Option NmMessage
loop_index next = some loop_message

loop_id : ok (codes "a") ≡ require_inner_message_id loop_message
unfolding require_inner_message_id strip
loop_id = refl

loop_index-IsIndexed : IsIndexed plain_mail loop_index (codes "a" ∷ [])
unfolding require_inner_message_id contains text_eq strip
loop_index-IsIndexed next m i h k =
    let same : loop_message ≡ m = some-injective h in
    let is : ok (codes "a") ≡ ok i = loop_id ∙ ap require_inner_message_id same ∙ k in
    rw (← ok-injective is) refl

materialize_irt_chain-IsWalked_example :
    ((chain : List Snapshot) × (materialize_irt_chain plain_mail loop_index 2 (codes "a")
        ≡ some (ok chain))
      × IsChain plain_mail loop_index (codes "a") chain
      × (distinct (folded_ids plain_mail loop_index chain) ≡ true))
    ⊎ ((e : Error) × (materialize_irt_chain plain_mail loop_index 2 (codes "a") ≡ some (raise e))
        × IsStuck plain_mail loop_index [] (codes "a") e)
materialize_irt_chain-IsWalked_example =
    materialize_irt_chain-IsWalked plain_mail loop_index (codes "a" ∷ []) loop_index-IsIndexed 2
      (codes "a") (omega arith)

loop_raises : materialize_irt_chain plain_mail loop_index 2 (codes "a") ≡ some (raise runtime_error)
unfolding materialize_irt_chain materialize_loop visit require_matching_indexed_mid
    require_inner_message_id equals_case_insensitive snapshot_from_nm_message contains text_eq strip
    in_reply_to_inner from_optional_raw parse_present_optional parse_single_line
loop_raises = refl
