-- ===== src/Cli/Exec.antt =====
-- `main` of threlium/states/cli_exec.py: the scope that a command runs in.
use threlium.Prelude.{Bool, ◌==◌, Option, none, some, List, [], ◌∷◌, ◌++◌, is_empty, if◌then◌else◌}
use threlium.Prelude.Text.{Text, codes, strip}
use threlium.Prelude.Wire.{parse}
use threlium.Stage.Address.{MailLib}
use threlium.Task.Words.{join_space}
use threlium.Cli.Payload.{CliIntentPayload, CliLib, parse_cli_intent_payload}
use threlium.Cli.Policy.{resolve_cli_exec_argv}

-- `config.cli`, as the properties of a scope name it
pub record ScopeConfig : Type 0 where
  pub exec_memory_max : Text
  pub exec_cpu_quota : Text
  pub exec_tasks_max : Text
  pub sandbox_read_write_paths : Text
  pub sandbox_private_network : Bool

-- `s.split(",")`
unfoldable pub split_comma : Text → List Text
split_comma [] = [] ∷ []
split_comma (c ∷ s) =
    let rest = split_comma s in
    if c == 44 then [] ∷ rest else elim rest [ [] ↦ (c ∷ []) ∷ [] | w ∷ ws ↦ (c ∷ w) ∷ ws ]

-- The loop over the paths.
unfoldable pub read_write_props : List Text → List Text
unfolding strip
read_write_props [] = []
read_write_props (rw_path ∷ paths) =
    let rest = read_write_props paths in
    if is_empty (strip rw_path)
    then rest
    else (codes "--property=ReadWritePaths=" ++ strip rw_path) ∷ rest

module _ (config : ScopeConfig) where
  unfoldable pub props : List Text
  props =
      (codes "--property=MemoryMax=" ++ config.exec_memory_max)
      ∷ (codes "--property=CPUQuota=" ++ config.exec_cpu_quota)
      ∷ (codes "--property=TasksMax=" ++ config.exec_tasks_max)
      ∷ []

  unfoldable pub sandbox_props : List Text
  unfolding split_comma read_write_props
  sandbox_props =
      codes "--property=ProtectSystem=strict"
      ∷ codes "--property=ProtectHome=read-only"
      ∷ (read_write_props (split_comma config.sandbox_read_write_paths)
          ++ (if config.sandbox_private_network
              then codes "--property=PrivateNetwork=yes" ∷ []
              else []))

  -- The options before `--`.
  unfoldable pub scope_options : Bool → List Text
  unfolding props sandbox_props
  scope_options privileged =
      if privileged
      then codes "--wait" ∷ codes "--pipe" ∷ codes "--uid=0" ∷ props
      else codes "--user"
        ∷ codes "--wait"
        ∷ codes "--pipe"
        ∷ codes "--quiet"
        ∷ (sandbox_props ++ props)

  unfoldable pub build_scope_cmd : List Text → Bool → List Text
  unfolding scope_options
  build_scope_cmd exec_argv privileged =
      codes "systemd-run" ∷ (scope_options privileged ++ codes "--" ∷ exec_argv)

-- What is handed to `subprocess.run`, if anything is, and the note for the model.
pub record Executed : Type 0 where
  pub command : Option (List Text × Option Text)
  pub note : Text

-- `subprocess.run` with the text of its outcome, a time-out and an exception among them; the template
-- of an observation, of the command line, the text, and the mode where there is one.
pub record ExecLib : Type 0 where
  pub run : List Text → Option Text → Text
  pub observation : Text → Text → Option Bool → Text

-- `cli.cwd or None`
abbrev pub or_none : Option Text → Option Text
or_none none = none
or_none (some []) = none
or_none (some (c ∷ cwd)) = some (c ∷ cwd)

module _ (mail : MailLib) (lib : CliLib) (config : ScopeConfig) (exec : ExecLib) where
  -- The part of `main` behind the parser.
  unfoldable pub execute : CliIntentPayload → Executed
  execute cli =
      let exec_argv = resolve_cli_exec_argv mail lib cli.argv in
      let scope_cmd = build_scope_cmd config exec_argv cli.privileged in
      record {
        command = some (scope_cmd, or_none cli.cwd);
        note = parse (
            some (
              exec.observation (join_space exec_argv) (exec.run scope_cmd (or_none cli.cwd))
                (some cli.privileged)));
      }

  unfoldable pub cli_exec_main : Text → Executed
  cli_exec_main system_text =
      let prior = strip system_text in
      elim (parse_cli_intent_payload lib prior) [
        | none ↦ record { command = none; note = parse (some (exec.observation [] prior none)) }
        | some cli ↦ execute cli
      ]
