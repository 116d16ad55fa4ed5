-- ===== src/Engine/Run.antt =====
-- `_run_stage` of threlium/runners/engine/fsm.py: the handler of a stage on the bytes of a letter.
use threlium.Prelude.{
  Bool, not, Option, none, some, List, [], is_empty, if◌then◌else◌, Result, ok, raise,
  runtime_error, ◌>>=◌, ◌>>◌, raise_if,
}
use threlium.Prelude.Text.{Text, text_eq}
use threlium.Prelude.Wire.{parse_present_optional}
use threlium.Stage.Names.{FsmStage, value}
use threlium.Stage.Address.{MailLib, from_incoming_to}
use threlium.Irt.Snapshot.{from_optional_raw}

-- What a run takes of the mail library, and the handlers of the stages with the headers of the
-- correlation that they are called under.
pub record StageLib : Type 1 where
  pub Message : Type 0
  pub email_message_from_bytes : Text → Message
  pub empty_message : Message
  pub message_id_header : Message → Option Text
  -- the addresses of the `To` headers
  pub to_addresses : Message → List Text
  pub serialize_rfc822_for_wire : Message → Text
  pub litellm_route_correlation : Bool
  pub build_litellm_correlation_headers : Message → Result Text
  pub handler : FsmStage → Option Text → Message → Result (Option Message)

module _ (mail : MailLib) (lib : StageLib) where
  open lib use {
    Message, email_message_from_bytes, empty_message, message_id_header, to_addresses,
    serialize_rfc822_for_wire, litellm_route_correlation, build_litellm_correlation_headers,
    handler,
  }

  -- `_require_non_empty_message_id`
  unfoldable pub require_non_empty_message_id : Message → Result (Unit {0})
  unfolding parse_present_optional from_optional_raw
  require_non_empty_message_id msg =
      elim (from_optional_raw (parse_present_optional (message_id_header msg))) [
        | none ↦ raise runtime_error
        | some inner ↦ ok tt
      ]

  -- The call of the handler, in the scope of the correlation where that is on.
  unfoldable pub call_handler : FsmStage → Message → Result (Option Message)
  call_handler stage msg =
      if not litellm_route_correlation
      then handler stage none msg
      else (build_litellm_correlation_headers msg >>= λ corr. handler stage (some corr) msg)

  -- What is made of the handler's letter: no bytes where there is none.
  unfoldable pub out_bytes : Option Message → Result Text
  unfolding from_incoming_to
  out_bytes none = ok []
  out_bytes (some out) =
      from_incoming_to mail (to_addresses out) >>= λ next_stage. ok (serialize_rfc822_for_wire out)

  unfoldable pub run_stage : FsmStage → Text → Result Text
  unfolding require_non_empty_message_id from_incoming_to value text_eq call_handler out_bytes
  run_stage stage bytes = do
    let msg = if is_empty bytes then empty_message else email_message_from_bytes bytes
    require_non_empty_message_id msg
    incoming_stage ← from_incoming_to mail (to_addresses msg)
    raise_if (not (text_eq (value incoming_stage) (value stage))) runtime_error
    out ← call_handler stage msg
    out_bytes out
