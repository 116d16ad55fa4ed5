-- ===== src/Cli/Resume.antt =====
-- `main` of threlium/states/cli_resume.py: what becomes of a command when its user has answered, with
-- threlium/ingress_hitl_resolve.py and `invoke_with_bridge_retries` of
-- threlium/litellm_required_tool.py.
use threlium.Prelude.{
  ℕ, zero, suc, ◌+◌, Bool, true, false, Option, none, some, List, [], ◌∷◌, ◌++◌, is_empty,
  if◌then◌else◌, Result, Error, ok, raise, runtime_error, value_error, tool_bridge_error,
  tool_response_error, schema_error, ◌>>=◌,
}
use threlium.Prelude.Text.{Text, codes, strip}
use threlium.Prelude.Wire.{parse, parse_present_optional}
use threlium.Stage.Names.{cli_resume, cli_intent}
use threlium.Stage.Address.{MailLib}
use threlium.Irt.Snapshot.{Snapshot, is_addressed_to_fsm_stage, from_optional_raw}
use threlium.Cli.Payload.{
  CliIntentPayload, CliLib, parse_cli_intent_payload, cli_payload_as_json,
  cli_command_line_for_intent,
}
use threlium.Cli.Intent.{CliStep, to_enrich_fast, to_cli_exec, CliPrompts, note_of, body_of}

pub record ConfirmCliHitlToolArgs : Type 0 where
  pub confirmed : Bool
  pub interpretation : Option Text

-- `retry_errors` of `_classify_hitl_reply`
unfoldable pub is_retried : Error → Bool
is_retried tool_bridge_error = true
is_retried tool_response_error = true
is_retried schema_error = true
is_retried _ = false

-- `invoke_with_bridge_retries` without a fallback: `attempt i` is what the attempt i gives, and
-- `last_error` what the attempt before it has raised.
module _ {A : Type 0} (attempt : ℕ → Result A) (retry_errors : Error → Bool) where
  unfoldable pub retry_loop : ℕ → ℕ → Error → Result A
  retry_loop i zero last_error = raise last_error
  retry_loop i (suc left) last_error = elim (attempt i) [
    | ok args ↦ ok args
    | raise e ↦ elim (retry_errors e) [ true ↦ retry_loop (i + 1) left e | false ↦ raise e ]
  ]

  unfoldable pub invoke_with_bridge_retries : ℕ → Result A
  unfolding retry_loop
  invoke_with_bridge_retries zero = raise value_error
  invoke_with_bridge_retries (suc left) = retry_loop 0 (suc left) value_error

abbrev pub max_cli_hitl_classify_retries : ℕ
max_cli_hitl_classify_retries = 2

-- The note where no intent is found.
abbrev pub intent_not_found : Text
intent_not_found =
    codes "Threlium cli_resume: could not find a CLI intent message along In-Reply-To ancestors "
    ++ codes
        "(notmuch). Ensure the chain is indexed and a prior cli_intent step exists on this branch."

-- The files of the letters, the classifier of an answer (its attempts for a command line and an
-- answer), and the index.
pub record ResumeLib : Type 0 where
  pub is_file : Text → Bool
  pub system_part_text_from_path : Text → Result Text
  pub classify : Text → Text → ℕ → Result ConfirmCliHitlToolArgs
  pub ancestors : Text → Result (List Snapshot)

-- `require_fsm_message_id`, of the header
unfoldable pub require_fsm_message_id : Option Text → Result Text
require_fsm_message_id message_id = elim (parse_present_optional message_id) [
  | none ↦ raise runtime_error
  | some mid_w ↦ elim (from_optional_raw (some mid_w)) [
    | none ↦ raise runtime_error
    | some inner ↦ ok inner
  ]
]

-- `system_part_text_from_path(intent_path).strip()`, with no text where it raises `RuntimeError`
unfoldable pub intent_text : Result Text → Result Text
intent_text (ok text) = ok (strip text)
intent_text (raise runtime_error) = ok []
intent_text (raise e) = raise e

module _ (mail : MailLib) (lib : CliLib) (prompts : CliPrompts) (resume : ResumeLib) where
  open resume use {is_file, system_part_text_from_path, classify, ancestors}

  -- The loop over the ancestors behind the letter.
  unfoldable pub find_loop : List Snapshot → Result (Option Text)
  unfolding is_addressed_to_fsm_stage
  find_loop [] = ok none
  find_loop (snap ∷ snaps) =
      let rest = find_loop snaps in
      if is_addressed_to_fsm_stage mail snap cli_resume
      then ok none
      else if is_addressed_to_fsm_stage mail snap cli_intent
      then (if is_file snap.path then ok (some snap.path) else raise runtime_error)
      else rest

  -- `find_cli_intent_maildir_path_from_in_reply_to_ancestors`, of the chain
  unfoldable pub find_cli_intent_path : List Snapshot → Result (Option Text)
  find_cli_intent_path [] = ok none
  find_cli_intent_path (leaf ∷ snaps) = find_loop snaps

  -- `_emit_user_not_confirmed`
  unfoldable pub not_confirmed : Option Text → CliStep
  not_confirmed interpretation = to_enrich_fast (
      note_of (prompts.resume_not_confirmed (elim interpretation [ none ↦ [] | some text ↦ text ])))

  -- The answer of the classifier.
  unfoldable pub decided : CliIntentPayload → ConfirmCliHitlToolArgs → CliStep
  decided payload args =
      if args.confirmed
      then to_cli_exec (body_of (cli_payload_as_json lib payload))
      else not_confirmed args.interpretation

  -- The part of `main` behind the text of the intent.
  unfoldable pub resume_with : Text → Text → Result CliStep
  resume_with user_reply text = elim (parse_cli_intent_payload lib text) [
    | none ↦ ok (
        to_enrich_fast (
          parse (
            some (codes "Threlium cli_resume: could not parse stored CLI intent JSON in thread."))))
    | some payload ↦
        invoke_with_bridge_retries (classify (cli_command_line_for_intent lib payload) user_reply)
          is_retried (max_cli_hitl_classify_retries + 1)
        >>= λ args. ok (decided payload args)
  ]

  unfoldable pub cli_resume_main : Option Text → Text → Result CliStep
  cli_resume_main message_id system_text =
      let user_reply = strip system_text in
      if is_empty user_reply
      then ok (not_confirmed none)
      else (require_fsm_message_id message_id >>= λ inner. ancestors inner >>= λ chain.
          find_cli_intent_path chain >>= elim [
            | none ↦ ok (to_enrich_fast (parse (some intent_not_found)))
            | some path ↦ intent_text (system_part_text_from_path path) >>= λ text.
                resume_with user_reply text
          ])
