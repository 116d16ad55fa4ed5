-- ===== src/Cli/Policy.antt =====
-- What is made of the words of a command (threlium/cli_fsm.py): a shell, a chain of commands, the
-- name of a stage, and the policy.
use threlium.Prelude.{
  Bool, false, ◌&&◌, ◌||◌, Option, none, some, List, [], ◌∷◌, map, any, drop, is_empty,
  if◌then◌else◌, Result, ok, raise, lookup_error, ◌>>=◌,
}
use threlium.Prelude.Text.{Text, codes, text_eq, strip, is_space, starts_with}
use threlium.Stage.Names.{FsmStage, value}
use threlium.Stage.Address.{MailLib}
use threlium.Task.Words.{join_space}
use threlium.Reasoning.Routes.{reasoning_target_stages}
use threlium.Cli.Payload.{CliIntentPayload, CliLib}

pub data CliIntentPolicy : Type 0 where
  sandbox privileged : CliIntentPolicy

-- `CliRouteCollision` and `CliExecDecision`
pub data CliIntentDecision : Type 0 where
  route_collision : FsmStage → Text → CliIntentDecision
  exec_decision : CliIntentPolicy → CliIntentDecision

-- `tok in _SHELL_OP_TOKENS`, and `base in _SHELL_BINARIES`
unfoldable pub is_shell_op : Text → Bool
unfolding text_eq
is_shell_op tok =
    text_eq tok (codes "&&")
    || text_eq tok (codes "||")
    || text_eq tok (codes ";")
    || text_eq tok (codes "|")

unfoldable pub is_shell_binary : Text → Bool
unfolding text_eq
is_shell_binary base = text_eq base (codes "sh") || text_eq base (codes "bash")

-- White space at the beginning.
unfoldable pub space_first : Text → Bool
unfolding is_space
space_first [] = false
space_first (c ∷ s) = is_space c

-- `(&&|\|\||\|)\s` at the beginning
unfoldable pub operator_first : Text → Bool
unfolding starts_with space_first
operator_first s =
    (starts_with (codes "&&") s && space_first (drop 2 s))
    || (starts_with (codes "||") s && space_first (drop 2 s))
    || (starts_with (codes "|") s && space_first (drop 1 s))

-- `re.search(r"\s(&&|\|\||\|)\s", joined)`
unfoldable pub search_operator : Text → Bool
unfolding is_space operator_first
search_operator [] = false
search_operator (c ∷ s) = (is_space c && operator_first s) || search_operator s

unfoldable pub argv_uses_shell_chaining : List Text → Bool
unfolding is_shell_op search_operator
argv_uses_shell_chaining argv = any is_shell_op argv || search_operator (join_space argv)

module _ (mail : MailLib) (lib : CliLib) where
  open mail use {lower}
  open lib use {quote, shlex_join, basename}

  -- `os.path.basename(argv[0].strip() or " ").lower()`
  unfoldable pub base_of : Text → Text
  unfolding strip
  base_of word = lower (basename (if is_empty (strip word) then codes " " else strip word))

  unfoldable pub argv_is_sh_c_wrapper : List Text → Bool
  unfolding base_of is_shell_binary text_eq
  argv_is_sh_c_wrapper (shell ∷ flag ∷ line ∷ rest) =
      is_shell_binary (base_of shell) && text_eq flag (codes "-c")
  argv_is_sh_c_wrapper _ = false

  unfoldable pub argv_to_shell_line : List Text → Text
  unfolding is_shell_op
  argv_to_shell_line argv =
      join_space (map (λ tok. if is_shell_op tok then tok else quote tok) argv)

  -- `argv[2]`
  abbrev pub third : List Text → Text
  third (shell ∷ flag ∷ line ∷ rest) = line
  third _ = []

  unfoldable pub shell_command_line_for_argv : List Text → Text
  unfolding argv_is_sh_c_wrapper argv_uses_shell_chaining argv_to_shell_line
  shell_command_line_for_argv argv =
      if argv_is_sh_c_wrapper argv
      then third argv
      else if argv_uses_shell_chaining argv
      then argv_to_shell_line argv
      else shlex_join argv

  -- The shell is one of the two that the test has let through.
  unfoldable pub resolve_cli_exec_argv : List Text → List Text
  unfolding argv_is_sh_c_wrapper argv_uses_shell_chaining argv_to_shell_line base_of
  resolve_cli_exec_argv [] = []
  resolve_cli_exec_argv (word ∷ words) =
      if argv_is_sh_c_wrapper (word ∷ words)
      then (if is_shell_binary (base_of word) then base_of word else codes "sh")
        ∷ codes "-c"
        ∷ third (word ∷ words)
        ∷ []
      else if argv_uses_shell_chaining (word ∷ words)
      then codes "sh" ∷ codes "-c" ∷ argv_to_shell_line (word ∷ words) ∷ []
      else word ∷ words

  -- `route_by_name.get(base)`
  unfoldable pub route_named : Text → List FsmStage → Option FsmStage
  unfolding value text_eq
  route_named base [] = none
  route_named base (stage ∷ stages) =
      if text_eq (value stage) base then some stage else route_named base stages

  -- `argv[0]` of no words raises.
  unfoldable pub cli_argv_route_collision : List Text → Result (Option FsmStage)
  unfolding argv_is_sh_c_wrapper argv_uses_shell_chaining base_of route_named
  cli_argv_route_collision [] = raise lookup_error
  cli_argv_route_collision (word ∷ words) =
      if argv_is_sh_c_wrapper (word ∷ words) || argv_uses_shell_chaining (word ∷ words)
      then ok none
      else ok (route_named (base_of word) reasoning_target_stages)

  unfoldable pub classify_cli_policy : CliIntentPayload → CliIntentPolicy
  classify_cli_policy cli = if cli.privileged then privileged else sandbox

  unfoldable pub classify_cli_intent : CliIntentPayload → Result CliIntentDecision
  unfolding cli_argv_route_collision shell_command_line_for_argv classify_cli_policy
  classify_cli_intent cli = cli_argv_route_collision cli.argv >>= elim [
    | some route ↦ ok (route_collision route (shell_command_line_for_argv cli.argv))
    | none ↦ ok (exec_decision (classify_cli_policy cli))
  ]
