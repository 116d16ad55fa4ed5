-- ===== src/Cli/Tests.antt =====
-- Runs of the stages of a command: in the sandbox, after a consent, and the reply to a question.
use threlium.Prelude.{
  if◌then◌else◌, ℕ, zero, suc, ◌≡◌, ◌↔◌, refl, Bool, true, Option, none, some, [], ◌∷◌, Result, ok,
  raise, runtime_error, tool_bridge_error,
}
use threlium.Prelude.Text.{Text, codes, text_eq, strip}
use threlium.Stage.Names.{
  FsmStage, rfc822_mailbox, value, cli_intent, cli_hitl_out, cli_resume, egress_router, ingress,
}
use threlium.Stage.Address.{MailLib}
use threlium.Irt.Snapshot.{Snapshot, is_addressed_to_fsm_stage, from_optional_raw, names_stage}
use threlium.Irt.Chain.{NmMessage}
use threlium.Cli.Payload.{
  CliIntentPayload, parse_cli_intent_payload, cli_payload_as_json, cli_command_line_for_intent,
}
use threlium.Cli.Intent.{CliPrompts, cli_intent_main, to_cli_exec, body_of}
use threlium.Cli.Exec.{ScopeConfig, ExecLib, cli_exec_main, execute}
use threlium.Cli.Resume.{
  ConfirmCliHitlToolArgs, ResumeLib, cli_resume_main, require_fsm_message_id, find_loop,
  find_cli_intent_path, intent_text, resume_with, invoke_with_bridge_retries, is_retried, decided,
}
use threlium.Cli.Scope.{IsSandboxed, cli_intent_main-IsSandboxed}
use threlium.Cli.Approval.{IsConfirmed, cli_resume_main-IsConfirmed}
use threlium.Cli.Hitl.{
  classify_ingress_parent, classify_hitl_parent, hitl_loop, message_sent_from, parent_message,
  parent_inner,
}
use threlium.Cli.Question.{RepliesToQuestion}
use threlium.Cli.Ingress.{IngressLetter, to_cli_resume, first_of, ingress_main}
use threlium.Cli.Resumed.{IsFromUser, IsResumption, ingress_main-to_cli_resume}
use threlium.Emit.Patch.{Incoming}
use threlium.Emit.Step.{Step}
use threlium.Hop.Line.{IntText}
use threlium.Prelude.Int.{pos}
use threlium.Prelude.Wire.{parse, parse_present_optional}
use threlium.Task.Words.{join_space}
use threlium.Cli.Payload.{payload_json, normalized_cwd}
use threlium.Cli.Policy.{classify_cli_intent}
use threlium.Cli.Intent.{step_of}
use threlium.Cli.TestCodec.{
  codec, codec-CliLaws, read_payload, read_texts, dumps, write_texts, texts_of,
}

abbrev plain_mail : MailLib
plain_mail = record { lower = λ t. t; casefold = λ t. t; getaddresses = λ t. t ∷ [] }

abbrev templates : CliPrompts
templates = record {
  intent_invalid = λ prior. codes "?";
  intent_route_collision = λ route cmd. codes "?";
  resume_not_confirmed = λ interpretation. codes "no";
}

abbrev scopes : ScopeConfig
scopes = record {
  exec_memory_max = codes "1G";
  exec_cpu_quota = codes "50%";
  exec_tasks_max = codes "16";
  sandbox_read_write_paths = codes "/tmp, /var";
  sandbox_private_network = true;
}

abbrev runs : ExecLib
runs = record { run = λ words cwd. codes "ok"; observation = λ line prior mode. prior }

abbrev listing : Bool → CliIntentPayload
listing root = record { argv = codes "ls" ∷ codes "-l" ∷ []; cwd = none; privileged = root }

-- What the codec writes for it.
abbrev written : ℕ → Text
written root = 123 ∷ root ∷ 0 ∷ 2 ∷ 2 ∷ 108 ∷ 115 ∷ 2 ∷ 45 ∷ 108 ∷ 125 ∷ []

sandbox_step :
    cli_intent_main plain_mail codec templates true (written 0) ≡ ok (to_cli_exec (written 0))
unfolding cli_intent_main parse_cli_intent_payload cli_payload_as_json strip read_payload read_texts
    dumps write_texts classify_cli_intent step_of body_of parse text_eq value payload_json texts_of
    join_space normalized_cwd
sandbox_step = refl

cli_intent_main-IsSandboxed_example :
    IsSandboxed (cli_exec_main plain_mail codec scopes runs (written 0)).command
cli_intent_main-IsSandboxed_example =
    cli_intent_main-IsSandboxed plain_mail codec codec-CliLaws templates scopes runs (written 0)
      sandbox_step

abbrev letter : FsmStage → Text → Snapshot
letter to path = record {
  message_id_inner = codes "m";
  path = path;
  tags = [];
  header_from = none;
  header_to = some (rfc822_mailbox to);
  header_route = none;
  header_references = none;
  header_in_reply_to = none;
  header_subject = none;
}

abbrev consents : ℕ → Result ConfirmCliHitlToolArgs
consents zero = raise tool_bridge_error
consents (suc n) = ok (record { confirmed = true; interpretation = none })

abbrev letters : ResumeLib
letters = record {
  is_file = λ path. true;
  system_part_text_from_path = λ path. ok path;
  classify = λ line reply. consents;
  ancestors = λ inner. ok (
      letter cli_resume (codes "a")
      ∷ letter egress_router (codes "b")
      ∷ letter cli_intent (written 1)
      ∷ []);
}

consent_step :
    cli_resume_main plain_mail codec templates letters (some (codes "<a>")) (codes "yes")
    ≡ ok (to_cli_exec (written 1))
unfolding cli_resume_main require_fsm_message_id find_cli_intent_path is_addressed_to_fsm_stage
    rfc822_mailbox intent_text resume_with cli_command_line_for_intent invoke_with_bridge_retries
    is_retried decided parse_cli_intent_payload cli_payload_as_json strip read_payload read_texts
    dumps write_texts body_of parse text_eq value payload_json texts_of join_space normalized_cwd
    parse_present_optional from_optional_raw find_loop
consent_step = refl

cli_resume_main-IsConfirmed_example :
    (cli : CliIntentPayload) × IsConfirmed plain_mail codec templates letters
      (some (codes "<a>"))
      (codes "yes")
      cli
    × (cli_exec_main plain_mail codec scopes runs (written 1)
        ≡ execute plain_mail codec scopes runs cli)
cli_resume_main-IsConfirmed_example =
    cli_resume_main-IsConfirmed plain_mail codec templates letters codec-CliLaws scopes runs
      (some (codes "<a>")) (codes "yes") consent_step

abbrev question_of : Text → FsmStage → NmMessage
question_of mid stage = record {
  messageid = mid;
  path = codes "p";
  tags = [];
  from = some (rfc822_mailbox stage);
  to = none;
  route = none;
  references = none;
  in_reply_to = some (codes "<q>");
  subject = none;
}

-- The letter out replies to the question.
abbrev sent_letters : Text → Option NmMessage
sent_letters inner =
    if text_eq inner (codes "q")
    then some (question_of (codes "q") cli_hitl_out)
    else some (question_of (codes "o") egress_router)

abbrev five : IntText
five = record { int = λ t. some (pos 5); str = λ n. codes "5" }

abbrev reply_headers : Incoming
reply_headers = record {
  from = some (codes "telegram@localhost");
  message_id = some (codes "<r>");
  hop_budget = none;
}

abbrev user_reply : IngressLetter
user_reply = record {
  headers = reply_headers;
  subject = some (codes "ok");
  in_reply_to = codes "<o>" ∷ [];
  references = [];
  system_parts = codes " yes " ∷ [];
  user_query_parts = [];
}

abbrev resumes : Step
resumes = record {
  from_stage = ingress;
  to_addr = cli_resume;
  subject = codes "ok";
  in_reply_to = some (codes "<r>");
  history = none;
  system = some (codes "yes");
  hop_budget = codes "5";
}

abbrev refuses : IngressLetter → Bool → Result Step
refuses msg orphan = raise runtime_error

ingress_main-to_cli_resume_example :
    (ingress_main plain_mail sent_letters five (pos 5) refuses user_reply
      ≡ ok (to_cli_resume resumes))
    ↔ (IsFromUser plain_mail user_reply
        × RepliesToQuestion plain_mail sent_letters (first_of user_reply.in_reply_to)
        × IsResumption plain_mail sent_letters five (pos 5) refuses user_reply resumes)
ingress_main-to_cli_resume_example =
    ingress_main-to_cli_resume plain_mail sent_letters five (pos 5) refuses user_reply resumes

reply_resumes :
    ingress_main plain_mail sent_letters five (pos 5) refuses user_reply
    ≡ ok (to_cli_resume resumes)
unfolding ingress_main classify_ingress_parent classify_hitl_parent hitl_loop message_sent_from
    parent_message parent_inner names_stage rfc822_mailbox from_optional_raw value
reply_resumes = refl
