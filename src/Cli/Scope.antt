-- ===== src/Cli/Scope.antt =====
-- How a command that needs no answer is run: in the sandbox of the user's scope.
use mathlib.Core.List.{append_assoc}
use threlium.Prelude.{
  ◌>>=◌, ◌≡◌, refl, ap, ◌∙◌, Bool, true, false, ◌||◌, none, some, Option, List, [], ◌∷◌, ◌++◌,
  is_empty, if◌then◌else◌, inl, inr, Bool-cases, Result, ok, >>=-eq-ok, ok-injective,
}
use threlium.Prelude.Text.{Text, codes, text_eq, strip}
use threlium.Stage.Names.{FsmStage}
use threlium.Stage.Address.{MailLib}
use threlium.Cli.Payload.{CliIntentPayload, CliLib, parse_cli_intent_payload, cli_payload_as_json}
use threlium.Cli.Policy.{
  CliIntentDecision, exec_decision, route_collision, sandbox, privileged, classify_cli_policy,
  classify_cli_intent, cli_argv_route_collision, resolve_cli_exec_argv, shell_command_line_for_argv,
}
use threlium.Cli.Intent.{
  CliStep, to_enrich_fast, note_of, to_cli_exec, CliPrompts, step_of, cli_intent_main, body_of,
}
use threlium.Cli.Exec.{
  ScopeConfig, or_none, ExecLib, execute, cli_exec_main, build_scope_cmd, props, read_write_props,
  split_comma,
}
use threlium.Cli.Stored.{CliLaws, parse_cli_intent_payload-IsParsed, cli_exec_main-body_of}

-- An option is among the options of a command: the words before its first `--`.
unfoldable pub has_option : Text → List Text → Bool
unfolding text_eq
has_option option [] = false
has_option option (word ∷ words) =
    if text_eq word (codes "--") then false else text_eq word option || has_option option words

read_write_props-skipped :
    (paths words : List Text)
    → has_option (codes "--uid=0") (read_write_props paths ++ words)
      ≡ has_option (codes "--uid=0") words
unfolding read_write_props has_option
read_write_props-skipped [] words = refl
read_write_props-skipped (path ∷ paths) words = elim (Bool-cases (is_empty (strip path))) [
  | inl blank ↦ rw blank (read_write_props-skipped paths words)
  | inr there ↦ rw there (read_write_props-skipped paths words)
]

module _ (config : ScopeConfig) where
  no_network :
      (private : Bool) (argv : List Text)
      → has_option (codes "--uid=0") (
          (if private then codes "--property=PrivateNetwork=yes" ∷ [] else [])
          ++ (props config ++ codes "--" ∷ argv))
        ≡ false
  unfolding has_option props
  no_network true argv = refl
  no_network false argv = refl

  unprivileged-uid :
      (argv : List Text) → has_option (codes "--uid=0") (build_scope_cmd config argv false) ≡ false
  unfolding build_scope_cmd has_option
  unprivileged-uid argv =
      let net =
        if config.sandbox_private_network then codes "--property=PrivateNetwork=yes" ∷ [] else [] in
      let paths = split_comma config.sandbox_read_write_paths in
      let rest = codes "--" ∷ argv in
      ap (has_option (codes "--uid=0")) (
        append_assoc (read_write_props paths ++ net) (props config) rest
        ∙ append_assoc (read_write_props paths) net (props config ++ rest))
      ∙ read_write_props-skipped paths (net ++ (props config ++ rest))
      ∙ no_network config.sandbox_private_network argv

  unprivileged-user :
      (argv : List Text) → has_option (codes "--user") (build_scope_cmd config argv false) ≡ true
  unfolding build_scope_cmd has_option
  unprivileged-user argv = refl

-- A command that runs in the user's scope, and not as root.
abbrev pub IsSandboxed : Option (List Text × Option Text) → Type 0
IsSandboxed command =
    (words : List Text) × (cwd : Option Text) × (command ≡ some (words, cwd))
    × (has_option (codes "--user") words ≡ true)
    × (has_option (codes "--uid=0") words ≡ false)

module _ (mail : MailLib) (lib : CliLib) (laws : CliLaws lib) (prompts : CliPrompts)
    (config : ScopeConfig) (exec : ExecLib) where
  -- A step to cli_exec while the user is to be asked: the payload is not privileged.
  step_of-unprivileged :
      (cli : CliIntentPayload) (canon : Text) (decision : CliIntentDecision) {body : Text}
      → classify_cli_intent mail lib cli ≡ ok decision
      → step_of mail lib prompts true canon decision ≡ to_cli_exec body
      → (cli.privileged ≡ false) × (body_of canon ≡ body)
  unfolding classify_cli_intent classify_cli_policy step_of
  step_of-unprivileged cli canon decision {body} c h =
      let (collision, e, rest) = >>=-eq-ok (cli_argv_route_collision mail lib cli.argv) _ c in
      by_collision collision cli.privileged rest
    where
      by_collision :
          (collision : Option FsmStage) (root : Bool)
          → (elim collision as (λ _. Result CliIntentDecision) [
            | some route ↦
                ok (route_collision route (shell_command_line_for_argv mail lib cli.argv))
            | none ↦ ok (exec_decision (if root then privileged else sandbox))
          ])
            ≡ ok decision
          → (root ≡ false) × (body_of canon ≡ body)
      by_collision (some route) root k = let x = rw (← ok-injective k) at h in cc
      by_collision none true k = let x = rw (← ok-injective k) at h in cc
      by_collision none false k = let x = rw (← ok-injective k) at h in (refl, cc)

  execute-IsSandboxed :
      (cli : CliIntentPayload)
      → cli.privileged ≡ false
      → IsSandboxed (execute mail lib config exec cli).command
  unfolding execute
  execute-IsSandboxed cli p =
      let argv = resolve_cli_exec_argv mail lib cli.argv in
      rw p (
        build_scope_cmd config argv false,
        or_none cli.cwd,
        refl,
        unprivileged-user config argv,
        unprivileged-uid config argv,
      )

  -- If json writes an object in braces and msgspec reads a payload back, then whatever cli_intent hands
  -- to cli_exec while privileged_hitl_enabled is set runs in the user's scope and not as root: the
  -- command that cli_exec makes of it has the option --user before its first --, and not --uid=0.
  pub cli_intent_main-IsSandboxed :
      (system_text : Text) {body : Text}
      → cli_intent_main mail lib prompts true system_text ≡ ok (to_cli_exec body)
      → IsSandboxed (cli_exec_main mail lib config exec body).command
  unfolding cli_intent_main
  cli_intent_main-IsSandboxed system_text h =
      by_payload (parse_cli_intent_payload lib (strip system_text)) refl h
    where
      by_payload :
          (parsed : Option CliIntentPayload) {body : Text}
          → parse_cli_intent_payload lib (strip system_text) ≡ parsed
          → (elim parsed as (λ _. Result CliStep) [
            | none ↦ ok (to_enrich_fast (note_of (prompts.intent_invalid (strip system_text))))
            | some payload ↦ classify_cli_intent mail lib payload >>= λ decision.
                ok (step_of mail lib prompts true (cli_payload_as_json lib payload) decision)
          ])
            ≡ ok (to_cli_exec body)
          → IsSandboxed (cli_exec_main mail lib config exec body).command
      by_payload none e k = cc
      by_payload (some cli) e k =
          let (decision, c, rest) = >>=-eq-ok (classify_cli_intent mail lib cli) _ k in
          let (root, same) =
            step_of-unprivileged cli (cli_payload_as_json lib cli) decision c (ok-injective rest) in
          let read =
            cli_exec_main-body_of lib laws mail config exec cli
              (parse_cli_intent_payload-IsParsed lib (strip system_text) e) in
          rw (← same, read) (execute-IsSandboxed cli root)
