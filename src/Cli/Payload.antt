-- ===== src/Cli/Payload.antt =====
-- The payload of a command: `CliIntentPayload` of threlium/types/cli_mail.py, with its parser, its
-- JSON and its command line in threlium/cli_fsm.py.
use threlium.Prelude.{Bool, Option, none, some, List, [], ◌∷◌, ◌++◌, map, is_empty, if◌then◌else◌}
use threlium.Prelude.Text.{Text, codes, strip}
use threlium.Prelude.Json.{Json, str, scalar, arr, obj, Items, nil, cons, Fields, end, field}
use threlium.Task.Words.{join_space}

pub record CliIntentPayload : Type 0 where
  pub argv : List Text
  pub cwd : Option Text
  pub privileged : Bool

-- The JSON codec, and the functions of Python's library on shell words and paths.
pub record CliLib : Type 0 where
  -- `msgspec.json.decode(…, type=CliIntentEnvelope)`, of the payload in the envelope
  pub decode_envelope : Text → Option CliIntentPayload
  pub json_dumps : Json → Text
  pub quote : Text → Text
  pub shlex_join : List Text → Text
  pub basename : Text → Text

abbrev pub texts_json : List Text → Items
texts_json [] = nil
texts_json (t ∷ ts) = cons (str t) (texts_json ts)

-- `if cli.cwd: inner["cwd"] = cli.cwd`
unfoldable pub cwd_field : Option Text → Fields
cwd_field none = end
cwd_field (some cwd) = if is_empty cwd then end else field (codes "cwd") (str cwd) end

-- The dictionary of `cli_payload_as_json`
unfoldable pub payload_json : CliIntentPayload → Fields
unfolding cwd_field
payload_json cli =
    field (codes "cli")
      (obj (
        field (codes "argv") (arr (texts_json cli.argv)) (
          field (codes "privileged")
            (scalar (if cli.privileged then codes "True" else codes "False")) (cwd_field cli.cwd))))
      end

-- `cwd` behind the parser: stripped, and `None` where nothing is left of it
unfoldable pub normalized_cwd : Option Text → Option Text
unfolding strip
normalized_cwd none = none
normalized_cwd (some cwd) = if is_empty (strip cwd) then none else some (strip cwd)

module _ (lib : CliLib) where
  open lib use {decode_envelope, json_dumps, quote}

  unfoldable pub parse_cli_intent_payload : Text → Option CliIntentPayload
  parse_cli_intent_payload text =
      let raw = strip text in
      if is_empty raw then none else elim (decode_envelope raw) [
        | none ↦ none
        | some cli ↦
            if is_empty cli.argv then none else some (record cli { cwd = normalized_cwd cli.cwd })
      ]

  unfoldable pub cli_payload_as_json : CliIntentPayload → Text
  cli_payload_as_json cli = json_dumps (obj (payload_json cli))

  -- The words, behind the directory where there is one.
  unfoldable pub cli_command_line_for_intent : CliIntentPayload → Text
  cli_command_line_for_intent cli =
      let line = join_space (map quote cli.argv) in
      elim cli.cwd [
        | none ↦ line
        | some [] ↦ line
        | some (c ∷ cwd) ↦ codes "(cwd=" ++ quote (c ∷ cwd) ++ codes ") " ++ line
      ]
