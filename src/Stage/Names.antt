-- ===== src/Stage/Names.antt =====
-- `FsmStage`: its members, their values and their mailboxes.
use threlium.Prelude.{◌≡◌, refl, Option, none, some, List, [], ◌∷◌, ◌++◌, if◌then◌else◌}
use threlium.Prelude.Text.{Text, codes, text_eq}

pub data FsmStage : Type 0 where
  ingress enrich reasoning reflect thread_memory global_memory subagent_intent subagent_end
        cli_intent cli_hitl_out cli_resume cli_exec response_append response_edit response_observe
        tasks_upsert enrich_fast response_finalize egress_router egress_email egress_telegram
        egress_matrix egress_isomorph formal_reason memory_query summarize_context summarize_memory
        archive :
      FsmStage

pub FsmStage-discrete : Discrete FsmStage
FsmStage-discrete = hlevel

-- The value of a member.
unfoldable pub value : FsmStage → Text
value ingress = codes "ingress"
value enrich = codes "enrich"
value reasoning = codes "reasoning"
value reflect = codes "reflect"
value thread_memory = codes "thread_memory"
value global_memory = codes "global_memory"
value subagent_intent = codes "subagent_intent"
value subagent_end = codes "subagent_end"
value cli_intent = codes "cli_intent"
value cli_hitl_out = codes "cli_hitl_out"
value cli_resume = codes "cli_resume"
value cli_exec = codes "cli_exec"
value response_append = codes "response_append"
value response_edit = codes "response_edit"
value response_observe = codes "response_observe"
value tasks_upsert = codes "tasks_upsert"
value enrich_fast = codes "enrich_fast"
value response_finalize = codes "response_finalize"
value egress_router = codes "egress_router"
value egress_email = codes "egress_email"
value egress_telegram = codes "egress_telegram"
value egress_matrix = codes "egress_matrix"
value egress_isomorph = codes "egress_isomorph"
value formal_reason = codes "formal_reason"
value memory_query = codes "memory_query"
value summarize_context = codes "summarize_context"
value summarize_memory = codes "summarize_memory"
value archive = codes "archive"

unfoldable pub members : List FsmStage
members =
    ingress ∷ enrich ∷ reasoning ∷ reflect ∷ thread_memory ∷ global_memory ∷ subagent_intent
    ∷ subagent_end ∷ cli_intent ∷ cli_hitl_out ∷ cli_resume ∷ cli_exec ∷ response_append
    ∷ response_edit ∷ response_observe ∷ tasks_upsert ∷ enrich_fast ∷ response_finalize
    ∷ egress_router ∷ egress_email ∷ egress_telegram ∷ egress_matrix ∷ egress_isomorph
    ∷ formal_reason ∷ memory_query ∷ summarize_context ∷ summarize_memory ∷ archive ∷ []

-- `f"{self.value}@localhost"`
unfoldable pub rfc822_mailbox : FsmStage → Text
unfolding value
rfc822_mailbox s = value s ++ codes "@localhost"

unfoldable pub first_named : Text → List FsmStage → Option FsmStage
first_named key [] = none
first_named key (s ∷ rest) = if text_eq (value s) key then some s else first_named key rest

-- `FsmStage(key)`: the member with the value, `none` where Python raises `ValueError`.
unfoldable pub of_value : Text → Option FsmStage
unfolding value members text_eq first_named
of_value key = first_named key members

pub of_value-value : (s : FsmStage) → of_value (value s) ≡ some s
unfolding of_value
of_value-value ingress = refl
of_value-value _ = refl
