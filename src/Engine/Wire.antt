-- ===== src/Engine/Wire.antt =====
-- The line protocol between a worker unit and the engine: threlium/enginewire.py,
-- threlium/runners/engine/wire_io.py, the request handler of threlium/runners/engine/server.py, and
-- threlium/runners/engine_submit.
use threlium.Prelude.{
  ℕ, Bool, not, ◌||◌, ◌==◌, Option, none, some, List, [], ◌∷◌, ◌++◌, is_empty, any, drop,
  if◌then◌else◌, Result, Error, ok, raise, value_error, os_error, ◌>>=◌,
}
use threlium.Prelude.Text.{Text, codes, strip, starts_with}
use threlium.Prelude.Wire.{parse_present_optional}
use threlium.Stage.Names.{FsmStage}
use threlium.Stage.Address.{MailLib, parse}

pub record EngineWireRequest : Type 0 where
  pub stage : Text
  pub thread_id : Text

-- `EngineWireOk`, and `EngineWireError` with its message and traceback
pub data EngineWireResponse : Type 0 where
  wire_ok : EngineWireResponse
  wire_error : Text → Text → EngineWireResponse

-- The JSON codec of msgspec, and the texts of an exception.
pub record WireLib : Type 0 where
  pub encode_request : EngineWireRequest → Text
  pub encode_response : EngineWireResponse → Text
  pub decode_request : Text → Option EngineWireRequest
  -- `type=EngineWireOk`, and `type=EngineWireError`
  pub decodes_ok : Text → Bool
  pub decode_error : Text → Option (Text × Text)
  pub exception_text : Error → Text
  pub format_exc : Error → Text

-- `instance.partition(":")`: before the first colon, whether there is one, and behind it.
unfoldable pub before_colon : Text → Text
before_colon [] = []
before_colon (c ∷ s) = if c == 58 then [] else c ∷ before_colon s

unfoldable pub has_colon : Text → Bool
has_colon s = any (λ c. c == 58) s

unfoldable pub behind_colon : Text → Text
behind_colon [] = []
behind_colon (c ∷ s) = if c == 58 then s else behind_colon s

-- `EngineWireRequest.from_work_instance`
unfoldable pub from_work_instance : Text → Result EngineWireRequest
unfolding before_colon has_colon behind_colon
from_work_instance work =
    if not (has_colon work) || is_empty (before_colon work) || is_empty (behind_colon work)
    then raise value_error
    else ok (record { stage = before_colon work; thread_id = behind_colon work })

-- `NotmuchThreadScopeId.from_notmuch_thread_attr`, of a text
unfoldable pub from_notmuch_thread_attr : Text → Option Text
unfolding strip starts_with parse_present_optional
from_notmuch_thread_attr tid =
    let s = strip tid in
    if is_empty s
    then none
    else (let full = if starts_with (codes "thread:") s then s else codes "thread:" ++ s in
        parse_present_optional
          (some (if starts_with (codes "thread:") full then drop 7 full else full)))

-- `rfile.readline()`
unfoldable pub readline : Text → Text
readline [] = []
readline (c ∷ stream) = if c == 10 then c ∷ [] else c ∷ readline stream

-- `read_wire_line`
unfoldable pub read_wire_line : Text → Text
unfolding readline strip
read_wire_line stream = let raw = readline stream in if is_empty raw then [] else strip raw

-- `encode_wire_line`, of the JSON
abbrev pub wire_line : Text → Text
wire_line json = json ++ 10 ∷ []

module _ (lib : WireLib) where
  open lib use {
    encode_request, encode_response, decode_request, decodes_ok, decode_error, exception_text,
    format_exc,
  }

  unfoldable pub decode_engine_wire_request : Text → Result EngineWireRequest
  decode_engine_wire_request line =
      if is_empty line
      then raise value_error
      else elim (decode_request line) [ none ↦ raise value_error | some request ↦ ok request ]

  unfoldable pub decode_engine_wire_response : Text → Result EngineWireResponse
  decode_engine_wire_response line =
      if is_empty line
      then raise value_error
      else if decodes_ok line
      then ok wire_ok
      else elim (decode_error line) [
        | none ↦ raise value_error
        | some (message, traceback) ↦ ok (wire_error message traceback)
      ]

  module _ (mail : MailLib) (process_thread_message : FsmStage → Text → Result (Unit {0})) where
    -- The body of `handle` for a line that is not empty.
    unfoldable pub serve : Text → Result (Unit {0})
    unfolding decode_engine_wire_request parse from_notmuch_thread_attr
    serve line = do
      wire ← decode_engine_wire_request line
      stage ← parse mail (some wire.stage)
      elim (from_notmuch_thread_attr wire.thread_id) [
        | none ↦ raise value_error
        | some tid ↦ process_thread_message stage tid
      ]

    -- `_EngineRequestHandler.handle`: what it writes to the socket.
    unfoldable pub handle : Text → Text
    unfolding read_wire_line serve
    handle stream =
        let line = read_wire_line stream in
        if is_empty line then [] else elim (serve line) [
          | ok done ↦ wire_line (encode_response wire_ok)
          | raise e ↦ wire_line (encode_response (wire_error (exception_text e) (format_exc e)))
        ]

  -- `exchange` is the socket: what comes back for what is sent, or its exception.
  module _ (exchange : Text → Result Text) where
    unfoldable pub submit_to_engine : EngineWireRequest → Result EngineWireResponse
    unfolding decode_engine_wire_response read_wire_line
    submit_to_engine request = exchange (wire_line (encode_request request)) >>= λ stream.
        decode_engine_wire_response (read_wire_line stream)

    -- The exit status for what `submit_to_engine` gives.
    unfoldable pub exit_status : Result EngineWireResponse → Result ℕ
    exit_status (ok wire_ok) = ok 0
    exit_status (ok (wire_error message traceback)) = ok 1
    exit_status (raise os_error) = ok 1
    exit_status (raise value_error) = ok 1
    exit_status (raise e) = raise e

    -- `main`, of the arguments and of `THRELIUM_HOME`
    unfoldable pub submit_main : List Text → Option Text → Result ℕ
    unfolding from_work_instance submit_to_engine exit_status
    submit_main [] home = ok 1
    submit_main (program ∷ []) home = ok 1
    submit_main (program ∷ work ∷ rest) home = elim (from_work_instance work) [
      | raise e ↦ ok 1
      | ok request ↦ elim home [
        | none ↦ ok 1
        | some [] ↦ ok 1
        | some (c ∷ path) ↦ exit_status (submit_to_engine request)
      ]
    ]
