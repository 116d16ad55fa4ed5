-- ===== src/Response/Tests.antt =====
-- Runs of the response buffer.
use threlium.Prelude.{
  ℕ, ◌≡◌, ◌<◌, refl, true, ◌||◌, ◌&&◌, not, ltb, is_some, is_empty, none, some, List, [], ◌∷◌, ◌++◌,
  length, get_elem?, ok,
}
use threlium.Prelude.Text.{Text, codes, text_eq, text_key, strip}
use threlium.Irt.Filter.{has_route_tag}
use threlium.Prelude.Int.{int_le, pos, int_key, int_eq}
use threlium.Prelude.Sort.{contains, sorted}
use threlium.Stage.Names.{FsmStage, rfc822_mailbox, response_append, response_edit}
use threlium.Stage.Address.{MailLib}
use threlium.Irt.Snapshot.{Snapshot, subagent_marker}
use threlium.Task.Collect.{TaskLib, task_ledger_at}
use threlium.Task.Gate.{ledger_has_open_work}
use threlium.Response.Ops.{
  ResponseOp, append_op, edit_op, apply_response_ops, reduce_ops, build_state_data,
}
use threlium.Response.Collect.{ResponseLib, ResponseEditStagePayload, collect_ops}
use threlium.Response.Buffer.{array_of, live, numbered, apply_response_ops-array, reduce_ops-array}
use threlium.Response.Counts.{views, chars, build_state_data-array}
use threlium.Response.Edit.{preserving, response_edit_main, response_edit_main-preserving}
use threlium.Response.Finalize.{
  FinalizePrompts, to_egress, is_egress, strip_or_none, buffer_text_at, response_finalize_main,
  response_finalize_main-is_egress,
}

abbrev plain_mail : MailLib
plain_mail = record { lower = λ t. t; casefold = λ t. t; getaddresses = λ t. t ∷ [] }

-- Every letter has a `<system>` part, its path; an edit body is taken to delete chunk 0.
abbrev path_is_body : ResponseLib
path_is_body = record {
  message_has_system = λ path. true;
  system_part_text_from_path = λ path. path;
  parse_response_edit_stage_payload =
      λ body. some (record { position = pos 0; new_content = none });
}

abbrev from_stage : FsmStage → Text → Snapshot
from_stage stage path = record {
  message_id_inner = codes "m";
  path = path;
  tags = [];
  header_from = some (rfc822_mailbox stage);
  header_to = none;
  header_route = none;
  header_references = none;
  header_in_reply_to = none;
  header_subject = none;
}

-- Two chunks, of which the first is deleted; the chain begins with the newest letter.
abbrev turn : List Snapshot
turn =
    from_stage response_edit (codes "{}")
    ∷ from_stage response_append (codes "b")
    ∷ from_stage response_append (codes "a")
    ∷ []

abbrev turn_ops : List ResponseOp
turn_ops =
    append_op (pos 0) (codes "a") (codes "m")
    ∷ append_op (pos 1) (codes "b") (codes "m")
    ∷ edit_op (pos 0) none (codes "m")
    ∷ []

turn-turn_ops : collect_ops plain_mail path_is_body turn ≡ ok turn_ops
unfolding collect_ops subagent_marker strip text_eq rfc822_mailbox contains has_route_tag
turn-turn_ops = refl

abbrev concat : List Text → Text
concat [] = []
concat (t ∷ ts) = t ++ concat ts

apply_response_ops-array_example : apply_response_ops turn_ops ≡ numbered 0 (array_of turn_ops)
apply_response_ops-array_example =
    apply_response_ops-array plain_mail path_is_body turn turn_ops turn-turn_ops

reduce_ops-array_example : reduce_ops concat turn_ops ≡ strip (concat (live (array_of turn_ops)))
reduce_ops-array_example =
    reduce_ops-array plain_mail path_is_body concat turn turn_ops turn-turn_ops

build_state_data-array_example : build_state_data turn_ops ≡ record {
  is_empty = is_empty (array_of turn_ops);
  live_count = length (live (array_of turn_ops));
  total_chars = chars (live (array_of turn_ops));
  chunks = views 0 (array_of turn_ops);
}
build_state_data-array_example =
    build_state_data-array plain_mail path_is_body turn turn_ops turn-turn_ops

turn-preserving : response_edit_main plain_mail path_is_body (codes "{}") turn ≡ ok preserving
unfolding response_edit_main subagent_marker strip text_eq rfc822_mailbox contains int_eq
    has_route_tag
turn-preserving = refl

response_edit_main-preserving_example :
    (payload : ResponseEditStagePayload) × (ops : List ResponseOp) × (k : ℕ)
    × (path_is_body.parse_response_edit_stage_payload (strip (codes "{}")) ≡ some payload)
    × (collect_ops plain_mail path_is_body turn ≡ ok ops)
    × (payload.position ≡ pos k)
    × (k < length (array_of ops))
    × (get_elem? (array_of (ops ++ edit_op payload.position payload.new_content (codes "n") ∷ [])) k
        ≡ some payload.new_content)
response_edit_main-preserving_example =
    response_edit_main-preserving plain_mail path_is_body (codes "{}") turn (codes "n")
      turn-preserving

abbrev no_tasks : TaskLib
no_tasks = record {
  task_init_part = λ path. none;
  system_part_text_from_path = λ path. path;
  decode_task_init = λ body. none;
  decode_tasks_upsert = λ body. none;
  sha256_hex = λ text. text;
}

abbrev prompts : FinalizePrompts
prompts = record {
  chunk_assembly = concat;
  compose = λ buffer inline. elim buffer [ none ↦ codes "?" | some text ↦ text ];
  fallback_subject = codes "re";
  response_not_formed = codes "no answer";
  task_incomplete = λ ledger. codes "open work";
}

-- A level with no hops left answers though its ledger is empty.
turn-answered :
    response_finalize_main plain_mail path_is_body no_tasks prompts [] none 0 turn
    ≡ ok (to_egress (codes "b") (codes "re"))
unfolding response_finalize_main subagent_marker strip text_eq rfc822_mailbox contains sorted
    has_route_tag int_eq int_le
turn-answered = refl

response_finalize_main-is_egress_example :
    (ops : List ResponseOp) × (collect_ops plain_mail path_is_body turn ≡ ok ops)
    × (is_egress (to_egress (codes "b") (codes "re")) ≡ (
        ltb 0 1
        || ((is_some (buffer_text_at plain_mail path_is_body no_tasks prompts ops)
              || is_some (strip_or_none []))
            && not (ledger_has_open_work (task_ledger_at plain_mail no_tasks turn)))))
response_finalize_main-is_egress_example =
    response_finalize_main-is_egress plain_mail path_is_body no_tasks prompts [] none 0 turn
      (to_egress (codes "b") (codes "re")) turn-answered
