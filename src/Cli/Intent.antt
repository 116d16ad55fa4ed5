-- ===== src/Cli/Intent.antt =====
-- `main` of threlium/states/cli_intent.py: a command is run, or asked about first, or refused.
use threlium.Prelude.{Bool, none, some, if◌then◌else◌, Result, ok, ◌>>=◌}
use threlium.Prelude.Text.{Text, strip}
use threlium.Prelude.Wire.{parse}
use threlium.Stage.Names.{value}
use threlium.Stage.Address.{MailLib}
use threlium.Cli.Payload.{CliLib, parse_cli_intent_payload, cli_payload_as_json}
use threlium.Cli.Policy.{
  sandbox, privileged, CliIntentDecision, route_collision, exec_decision, classify_cli_intent,
}

-- The letter that a stage emits: its stage, and the body, or the note for the model.
pub data CliStep : Type 0 where
  to_enrich_fast : Text → CliStep
  to_cli_exec : Text → CliStep
  to_cli_hitl_out : Text → CliStep

-- The templates.
pub record CliPrompts : Type 0 where
  pub intent_invalid : Text → Text
  pub intent_route_collision : Text → Text → Text
  pub resume_not_confirmed : Text → Text

-- `EnrichCalleeHistoryText.parse(note.strip())`
unfoldable pub note_of : Text → Text
unfolding parse strip
note_of note = parse (some (strip note))

-- `FsmTransitionPlainBody.parse(canon)`
unfoldable pub body_of : Text → Text
body_of canon = parse (some canon)

module _ (mail : MailLib) (lib : CliLib) (prompts : CliPrompts)
    (privileged_hitl_enabled : Bool) where
  unfoldable pub step_of : Text → CliIntentDecision → CliStep
  step_of canon (route_collision route cmd) =
      to_enrich_fast (note_of (prompts.intent_route_collision (value route) cmd))
  step_of canon (exec_decision sandbox) = to_cli_exec (body_of canon)
  step_of canon (exec_decision privileged) =
      if privileged_hitl_enabled
      then to_cli_hitl_out (body_of canon)
      else to_cli_exec (body_of canon)

  unfoldable pub cli_intent_main : Text → Result CliStep
  cli_intent_main system_text =
      let body = strip system_text in
      elim (parse_cli_intent_payload lib body) [
        | none ↦ ok (to_enrich_fast (note_of (prompts.intent_invalid body)))
        | some payload ↦ classify_cli_intent mail lib payload >>= λ decision.
            ok (step_of (cli_payload_as_json lib payload) decision)
      ]
