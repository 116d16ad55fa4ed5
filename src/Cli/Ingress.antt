-- ===== src/Cli/Ingress.antt =====
-- `main` of threlium/states/ingress.py: the checks of a letter from a bridge, and where it goes. What
-- `_emit_bridge_distill_to_enrich` gives, which asks the language model, is a parameter.
use threlium.Prelude.{
  if◌then◌else◌, ltb, Bool, true, false, not, Option, none, some, List, [], ◌∷◌, any, length,
  is_empty, Result, ok, raise, raise_if, runtime_error, ◌>>=◌, ◌>>◌,
}
use threlium.Prelude.Int.{ℤ}
use threlium.Prelude.Text.{Text, codes, text_eq, strip}
use threlium.Prelude.Wire.{parse_present_optional, parse_single_line, parse_line}
use threlium.Stage.Names.{ingress, cli_resume}
use threlium.Stage.Address.{MailLib}
use threlium.Hop.Line.{IntText}
use threlium.Irt.Chain.{NmMessage}
use threlium.Emit.Patch.{Incoming}
use threlium.Emit.Step.{Step, StepArgs, build_fsm_step_to_stage}
use threlium.Cli.Hitl.{HitlParentRouting, without_intent, with_intent, classify_ingress_parent}

-- What is read of a letter from a bridge: the headers, all of a name where the code counts them, and
-- the texts of its `<system>` and its `<user-query>` parts.
pub record IngressLetter : Type 0 where
  pub headers : Incoming
  pub subject : Option Text
  pub in_reply_to : List Text
  pub references : List Text
  pub system_parts : List Text
  pub user_query_parts : List Text

-- The letter that `main` emits, by the function that builds it.
pub data IngressStep : Type 0 where
  to_enrich to_cli_resume : Step → IngressStep

-- `msg.get(…)` of all headers of a name.
abbrev pub first_of : List Text → Option Text
first_of [] = none
first_of (x ∷ xs) = some x

-- The values of `NotmuchBridgeFromLocalhost`
abbrev pub bridges : List Text
bridges =
    codes "telegram@localhost"
    ∷ codes "matrix@localhost"
    ∷ codes "email@localhost"
    ∷ codes "isomorph@localhost"
    ∷ []

-- `require_unique_threading_rfc822_headers`
unfoldable pub require_unique_threading_rfc822_headers : IngressLetter → Result (Unit {0})
require_unique_threading_rfc822_headers msg =
    raise_if (ltb 1 (length msg.in_reply_to)) runtime_error
    >> raise_if (ltb 1 (length msg.references)) runtime_error

-- `assert_bridge_input_has_no_user_query`
unfoldable pub assert_bridge_input_has_no_user_query : IngressLetter → Result (Unit {0})
assert_bridge_input_has_no_user_query msg =
    raise_if (not (is_empty msg.user_query_parts)) runtime_error

-- `system_part_text`
unfoldable pub system_part_text : IngressLetter → Result Text
system_part_text msg = elim msg.system_parts [
  | [] ↦ raise runtime_error
  | text ∷ more ↦ if is_empty more then ok text else raise runtime_error
]

-- `_preserved_subject`
unfoldable pub preserved_subject : IngressLetter → Result (Option Text)
unfolding parse_single_line parse_line
preserved_subject msg = parse_single_line msg.subject >>= λ subj. elim subj [
  | none ↦ ok none
  | some value ↦ parse_line value >>= λ line. ok (some line)
]

-- What `_emit_to_cli_resume` gives the builder of its letter.
abbrev pub resume_step : Text → Option Text → StepArgs
resume_step text subject_line = record {
  to_addr = cli_resume;
  from_stage = ingress;
  history = none;
  system = some (strip text);
  subject_line = subject_line;
}

module _ (mail : MailLib) where
  open mail use {lower}

  -- `bridge_from_email`, of whether it finds a bridge.
  unfoldable pub is_from_bridge : IngressLetter → Bool
  unfolding text_eq strip
  is_from_bridge msg = elim msg.headers.from [
    | none ↦ false
    | some raw ↦ any (λ bridge. text_eq (lower (strip raw)) (lower bridge)) bridges
  ]

  -- `require_bridge_from_email`
  unfoldable pub require_bridge_from_email : IngressLetter → Result (Unit {0})
  unfolding is_from_bridge
  require_bridge_from_email msg = raise_if (not (is_from_bridge msg)) runtime_error

  module _ (db_find : Text → Option NmMessage) (it : IntText) (budget_root : ℤ)
      (emit_bridge_distill_to_enrich : IngressLetter → Bool → Result Step) where
    -- `_emit_to_cli_resume`
    unfoldable pub emit_to_cli_resume : IngressLetter → Result Step
    unfolding require_bridge_from_email system_part_text preserved_subject strip
        build_fsm_step_to_stage
    emit_to_cli_resume msg = do
      require_bridge_from_email msg
      text ← system_part_text msg
      subject_line ← preserved_subject msg
      build_fsm_step_to_stage it budget_root msg.headers msg.subject (resume_step text subject_line)

    -- The letter of the distillation, of an orphan or not.
    unfoldable pub distilled : IngressLetter → Bool → Result IngressStep
    distilled msg orphan =
        emit_bridge_distill_to_enrich msg orphan >>= λ letter. ok (to_enrich letter)

    -- The last lines of `main`
    unfoldable pub emit_of_routing : IngressLetter → Option HitlParentRouting → Result IngressStep
    unfolding distilled emit_to_cli_resume
    emit_of_routing msg none = distilled msg true
    emit_of_routing msg (some without_intent) = distilled msg false
    emit_of_routing msg (some with_intent) =
        emit_to_cli_resume msg >>= λ letter. ok (to_cli_resume letter)

    unfoldable pub ingress_main : IngressLetter → Result IngressStep
    unfolding require_unique_threading_rfc822_headers require_bridge_from_email
        assert_bridge_input_has_no_user_query parse_present_optional distilled emit_of_routing
        classify_ingress_parent
    ingress_main msg = do
      require_unique_threading_rfc822_headers msg
      require_bridge_from_email msg
      assert_bridge_input_has_no_user_query msg
      elim (parse_present_optional (first_of msg.in_reply_to)) [
        | none ↦ distilled msg false
        | some irt_wire ↦
            classify_ingress_parent mail db_find irt_wire >>= λ routing. emit_of_routing msg routing
      ]
