-- ===== src/Reasoning/Tests.antt =====
-- Runs of the loop of the reasoning stage.
use threlium.Prelude.{
  ◌==◌, if◌then◌else◌, ℕ, ◌≡◌, refl, true, false, none, some, [], ◌∷◌, Result, ok, arith,
}
use threlium.Prelude.Text.{Text, codes, text_eq, strip}
use threlium.Stage.Names.{FsmStage, value, response_finalize}
use threlium.Stage.Address.{MailLib}
use threlium.Reasoning.Routes.{among, compute_allowed_routes, target_stage}
use threlium.Reasoning.Decide.{ModelResponse, RouteDecision, decide}
use threlium.Reasoning.Bounds.{decide-among, decide-total}

abbrev plain_mail : MailLib
plain_mail = record { lower = λ t. t; casefold = λ t. t; getaddresses = λ t. t ∷ [] }

abbrev calls : Text → ModelResponse
calls name =
    record {
      message = some (record {
        content = none;
        tool_calls = record { name = name; arguments = codes "{}" } ∷ [];
      });
      finish_reason = some (codes "tool_calls");
    }
    ∷ []

-- A model that first asks for a tool that is not allowed.
abbrev stubborn : ℕ → ℕ → Result ModelResponse
stubborn a r =
    if r == 0 then ok (calls (codes "reflect")) else ok (calls (codes "response_finalize"))

abbrev echo : FsmStage → Text → Result (Text × Text)
echo stage args = ok (codes "s", args)

abbrev final_decision : RouteDecision
final_decision = record { target = response_finalize; subject = codes "s"; body = codes "{}" }

stubborn-decides : decide plain_mail echo stubborn 1 15 false 0 ≡ some (ok final_decision)
unfolding decide target_stage strip text_eq value among
stubborn-decides = refl

decide-among_example : among response_finalize (compute_allowed_routes false 0) ≡ true
decide-among_example =
    decide-among plain_mail echo stubborn 1 15 false 0 final_decision stubborn-decides

decide-total_example :
    (d : Result RouteDecision) × (decide plain_mail echo stubborn 1 15 false 0 ≡ some d)
decide-total_example = decide-total plain_mail echo stubborn 1 15 false 0 (omega arith)
