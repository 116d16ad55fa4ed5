-- ===== src/Reasoning/Decide.antt =====
-- `_decide` of threlium/states/reasoning.py, with the checks of threlium/litellm_tool_response.py.
-- The completion of round (a, r), after `a` truncated answers and `r` refused ones, is a parameter:
-- the prompt of a round is made of these two numbers.
use threlium.Prelude.{
  ℕ, zero, suc, ◌+◌, ltb, leb, ◌==◌, Bool, false, not, ◌&&◌, ◌||◌, Option, none, some, List, [],
  ◌∷◌, length, is_empty, if◌then◌else◌, Result, ok, raise, runtime_error, reasoning_stage_error,
  ◌>>=◌, raise_if,
}
use threlium.Prelude.Text.{Text, codes, text_eq, strip}
use threlium.Prelude.Wire
use threlium.Prelude.Wire.{require}
use threlium.Stage.Names.{FsmStage, value, response_append, response_finalize}
use threlium.Stage.Address.{MailLib}
use threlium.Reasoning.Routes.{among, reasoning_target_stages, compute_allowed_routes, target_stage}

-- A tool call: the name of its function, empty where there is none, and its arguments.
pub record ToolCall : Type 0 where
  pub name : Text
  pub arguments : Text

pub record Message : Type 0 where
  pub content : Option Text
  pub tool_calls : List ToolCall

pub record Choice : Type 0 where
  pub message : Option Message
  pub finish_reason : Option Text

-- The choices of a `ModelResponse`.
abbrev pub ModelResponse : Type 0
ModelResponse = List Choice

pub record RouteDecision : Type 0 where
  pub target : FsmStage
  pub subject : Text
  pub body : Text

-- `finish == "length"`
unfoldable pub is_truncated : ModelResponse → Bool
unfolding text_eq
is_truncated [] = false
is_truncated (c ∷ cs) = elim c.finish_reason [
  | none ↦ false
  | some reason ↦ text_eq reason (codes "length")
]

unfoldable pub finish_is_refused : Option Text → Bool
unfolding text_eq
finish_is_refused none = false
finish_is_refused (some reason) = not (text_eq reason (codes "tool_calls"))

-- `require_tool_calls_response`, with `require_tool_calls_message` and `require_single_tool_call`.
unfoldable pub require_tool_calls_response : ModelResponse → Result (Unit {0})
unfolding finish_is_refused
require_tool_calls_response [] = raise runtime_error
require_tool_calls_response (c ∷ cs) = elim c.message [
  | none ↦ raise runtime_error
  | some m ↦
      raise_if (finish_is_refused c.finish_reason || not (length m.tool_calls == 1)) runtime_error
]

-- `reasoning_assistant_message`
unfoldable pub assistant_message : ModelResponse → Result Message
assistant_message [] = raise runtime_error
assistant_message (c ∷ cs) = elim c.message [ none ↦ raise runtime_error | some m ↦ ok m ]

-- `ReasoningToolFunctionName.parse_tool_call`
unfoldable pub parse_tool_call : ToolCall → Result Text
unfolding require
parse_tool_call tc = if is_empty tc.name then raise runtime_error else require (some tc.name)

-- What a round of the loop comes to: it ends, with a decision or an exception, or it goes on after
-- a truncated answer or a refused tool.
pub data Verdict : Type 0 where
  finished : Result RouteDecision → Verdict
  truncated refused : Verdict

-- `_MAX_WRONG_TOOL_RETRIES`
abbrev pub max_wrong_tool_retries : ℕ
max_wrong_tool_retries = 12

-- `render_args` is `validate_tool_args` and `render_route_decision`: jsonschema, msgspec and the
-- templates of the route.
module _ (mail : MailLib) (render_args : FsmStage → Text → Result (Text × Text)) where
  -- `_route_from_assistant`, where there is a tool call.
  unfoldable pub route_from_tool_call : ToolCall → Result RouteDecision
  unfolding parse_tool_call target_stage strip text_eq value Wire.parse
  route_from_tool_call tc = parse_tool_call tc >>= λ name. target_stage mail name >>= λ route.
      render_args route (Wire.parse (some tc.arguments)) >>= λ rendered.
      (if text_eq (value route) (value response_append) && is_empty (strip rendered.1)
        then raise reasoning_stage_error
        else ok (record { target = route; subject = rendered.0; body = rendered.1 }))

  -- The tool call of a round against the allowed routes.
  unfoldable pub judge_tool_call : List FsmStage → ℕ → ToolCall → Verdict
  unfolding parse_tool_call target_stage among text_eq value route_from_tool_call
  judge_tool_call allowed remaining tc =
      elim (parse_tool_call tc >>= λ name. target_stage mail name) [
        | raise e ↦ finished (raise e)
        | ok route ↦
            if ltb (length allowed) (length reasoning_target_stages) && not (among route allowed)
            then refused
            else if ltb remaining 1 && not (text_eq (value route) (value response_finalize))
            then refused
            else finished (route_from_tool_call tc)
      ]

  -- A round behind the completion.
  unfoldable pub judge : List FsmStage → ℕ → ModelResponse → Verdict
  unfolding is_truncated require_tool_calls_response assistant_message judge_tool_call
  judge allowed remaining resp =
      if is_truncated resp
      then truncated
      else elim (if leb 1 remaining then require_tool_calls_response resp else ok tt) [
        | raise e ↦ finished (raise e)
        | ok checked ↦ elim (assistant_message resp) [
          | raise e ↦ finished (raise e)
          | ok assistant ↦ elim assistant.tool_calls [
            | [] ↦ if ltb remaining 1 then refused else finished (raise reasoning_stage_error)
            | tc ∷ tcs ↦ judge_tool_call allowed remaining tc
          ]
        ]
      ]

  module _ (completion : ℕ → ℕ → Result ModelResponse) (length_max_attempts : ℕ) where
    -- The `while True` loop, `none` where the fuel has run out; the two numbers are
    -- `length_attempt` and `wrong_tool_retries`.
    unfoldable pub decide_loop : List FsmStage → ℕ → ℕ → ℕ → ℕ → Option (Result RouteDecision)
    unfolding judge
    decide_loop allowed remaining zero a r = none
    decide_loop allowed remaining (suc fuel) a r =
        let after_length = decide_loop allowed remaining fuel (a + 1) r in
        let after_tool = decide_loop allowed remaining fuel a (r + 1) in
        elim (completion a r) [
          | raise e ↦ some (raise e)
          | ok resp ↦ elim (judge allowed remaining resp) [
            | finished decision ↦ some decision
            | truncated ↦
                if leb length_max_attempts (a + 1)
                then some (raise reasoning_stage_error)
                else after_length
            | refused ↦
                if ltb max_wrong_tool_retries (r + 1)
                then some (raise reasoning_stage_error)
                else after_tool
          ]
        ]

    -- `_decide`, with `formal_reason_gate_active(msg)`
    unfoldable pub decide : ℕ → Bool → ℕ → Option (Result RouteDecision)
    unfolding decide_loop compute_allowed_routes
    decide fuel gate_active remaining =
        decide_loop (compute_allowed_routes gate_active remaining) remaining fuel 0 0
