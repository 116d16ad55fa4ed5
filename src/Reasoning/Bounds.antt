-- ===== src/Reasoning/Bounds.antt =====
-- The loop of `_decide` ends, and the route that it returns is allowed.
use threlium.Prelude.{
  if◌then◌else◌, [], ◌∷◌, reasoning_stage_error, Bool, is_empty, runtime_error, ℕ, zero, suc, ◌+◌,
  ◌-◌, ◌<◌, ltb, leb, ◌≡◌, refl, sym, ap, ◌∙◌, true, false, not, ◌&&◌, some, List, arith, length,
  Result, ok, raise, ◌>>=◌, >>=-eq-ok, Result-cases, ok-injective, Bool-cases, inl, inr, ◌⊎◌,
}
use threlium.Prelude.Text.{strip, Text, text_eq}
use threlium.Stage.Names.{response_finalize, response_append, FsmStage, value}
use threlium.Stage
use threlium.Prelude.Wire
use threlium.Stage.Address.{MailLib}
use threlium.Reasoning.Routes.{compute_allowed_routes, among, reasoning_target_stages, target_stage}
use threlium.Reasoning.Decide.{
  assistant_message, require_tool_calls_response, is_truncated, decide, ModelResponse,
  RouteDecision, ToolCall, Verdict, finished, truncated, refused, parse_tool_call,
  route_from_tool_call, judge_tool_call, judge, decide_loop, max_wrong_tool_retries,
}

verdict-cases :
    (v : Verdict)
    → ((d : Result RouteDecision) × (v ≡ finished d)) ⊎ (v ≡ truncated) ⊎ (v ≡ refused)
verdict-cases (finished d) = inl (d, refl)
verdict-cases truncated = inr (inl refl)
verdict-cases refused = inr (inr refl)

after_length :
    (m a rest fuel : ℕ)
    → leb m (a + 1) ≡ false
    → (m - a) + rest < suc fuel
    → (m - (a + 1)) + rest < fuel
after_length m a rest fuel f h = ground arith

after_tool :
    (m r fuel : ℕ)
    → ltb max_wrong_tool_retries (r + 1) ≡ false
    → m + (13 - r) < suc fuel
    → m + (13 - (r + 1)) < fuel
after_tool m r fuel f h = ground arith

some-injective : {x y : Result RouteDecision} → some x ≡ some y → x ≡ y
some-injective h = cc

not-false : (b : Bool) → not b ≡ false → b ≡ true
not-false true h = refl
not-false false h = cc

finished-injective : {d e : Result RouteDecision} → finished d ≡ finished e → d ≡ e
finished-injective h = cc

module _ (mail : MailLib) (render_args : FsmStage → Text → Result (Text × Text))
    (completion : ℕ → ℕ → Result ModelResponse) (length_max_attempts : ℕ) where
  decide_loop-total :
      (allowed : List FsmStage) (remaining fuel a r : ℕ)
      → (length_max_attempts - a) + (13 - r) < fuel
      → (d : Result RouteDecision) × (decide_loop mail render_args completion length_max_attempts
            allowed remaining fuel a r
          ≡ some d)
  unfolding decide_loop
  decide_loop-total allowed remaining (suc fuel) a r h = elim (Result-cases (completion a r)) [
    | inr (e, c) ↦ rw (decide_loop, c) (_, refl)
    | inl (resp, c) ↦ elim (verdict-cases (judge mail render_args allowed remaining resp)) [
      | inl (d, v) ↦ rw (decide_loop, c, v) (_, refl)
      | inr (inl v) ↦ elim (Bool-cases (leb length_max_attempts (a + 1))) [
        | inl t ↦ rw (decide_loop, c, v, t) (_, refl)
        | inr f ↦
            rw (decide_loop, c, v, f)
              (decide_loop-total allowed remaining fuel (a + 1) r
                (after_length length_max_attempts a (13 - r) fuel f h))
      ]
      | inr (inr v) ↦ elim (Bool-cases (ltb max_wrong_tool_retries (r + 1))) [
        | inl t ↦ rw (decide_loop, c, v, t) (_, refl)
        | inr f ↦
            rw (decide_loop, c, v, f)
              (decide_loop-total allowed remaining fuel a (r + 1)
                (after_tool (length_max_attempts - a) r fuel f h))
      ]
    ]
  ]
  decide_loop-total allowed remaining zero a r h = (raise runtime_error, ground (arith, h))

target_stage-among :
    (mail : MailLib) (name : Text) {s : FsmStage}
    → target_stage mail name ≡ ok s
    → among s reasoning_target_stages ≡ true
unfolding target_stage
target_stage-among mail name h =
    let (t, e, f) = >>=-eq-ok (Stage.Address.parse mail (some name)) _ h in
    elim (Bool-cases (among t reasoning_target_stages)) [
      | inl y ↦ rw (← ok-injective (rw y at f)) y
      | inr n ↦ let no = rw n at f in cc
    ]

module _ (mail : MailLib) (render_args : FsmStage → Text → Result (Text × Text)) where
  route_from_tool_call-target :
      (tc : ToolCall) {d : RouteDecision}
      → route_from_tool_call mail render_args tc ≡ ok d
      → (parse_tool_call tc >>= λ name. target_stage mail name) ≡ ok d.target
  unfolding route_from_tool_call
  route_from_tool_call-target tc h =
      let (name, e1, h1) = >>=-eq-ok (parse_tool_call tc) _ h in
      let (route, e2, h2) = >>=-eq-ok (target_stage mail name) _ h1 in
      let (rendered, e3, h3) =
        >>=-eq-ok (render_args route (Wire.parse (some tc.arguments))) _ h2 in
      elim (Bool-cases
        (text_eq (value route) (value response_append) && is_empty (strip rendered.1))) [
          | inl y ↦ let no = rw y at h3 in cc
          | inr n ↦
              let same = ap (λ (x : RouteDecision). x.target) (ok-injective (rw n at h3)) in
              rw (e1, e2, same) refl
        ]

  -- A decision goes to a target of reasoning, which is allowed where the routes are restricted.
  unfoldable IsAllowed : List FsmStage → FsmStage → Type 0
  IsAllowed allowed target =
      (among target reasoning_target_stages ≡ true)
      × ((ltb (length allowed) (length reasoning_target_stages) && not (among target allowed))
          ≡ false)

  judge_tool_call-IsAllowed :
      (allowed : List FsmStage) (remaining : ℕ) (tc : ToolCall) {d : RouteDecision}
      → judge_tool_call mail render_args allowed remaining tc ≡ finished (ok d)
      → IsAllowed allowed d.target
  unfolding judge_tool_call IsAllowed
  judge_tool_call-IsAllowed allowed remaining tc {d} h =
      elim (Result-cases (parse_tool_call tc >>= λ name. target_stage mail name)) [
        | inr (e, c) ↦ let no = rw (judge_tool_call, c) at h in cc
        | inl (route, c) ↦
            elim (Bool-cases (
              ltb (length allowed) (length reasoning_target_stages) && not (among route allowed))) [
                | inl y ↦ let no = rw (judge_tool_call, c, y) at h in cc
                | inr n ↦
                    elim (Bool-cases
                      (ltb remaining 1 && not (text_eq (value route) (value response_finalize)))) [
                        | inl y ↦ let no = rw (judge_tool_call, c, n, y) at h in cc
                        | inr m ↦
                            let done = rw (judge_tool_call, c, n, m) at h in
                            let target = route_from_tool_call-target tc (finished-injective done) in
                            let same : route ≡ d.target = ok-injective (sym c ∙ target) in
                            let (name, e, f) = >>=-eq-ok (parse_tool_call tc) _ c in
                            rw (← same) (target_stage-among mail name f, n)
                      ]
              ]
      ]

  judge-IsAllowed :
      (allowed : List FsmStage) (remaining : ℕ) (resp : ModelResponse) {d : RouteDecision}
      → judge mail render_args allowed remaining resp ≡ finished (ok d)
      → IsAllowed allowed d.target
  unfolding judge
  judge-IsAllowed allowed remaining resp {d} h = elim (Bool-cases (is_truncated resp)) [
    | inl t ↦ let no = rw (judge, t) at h in cc
    | inr t ↦
        elim (Result-cases (if leb 1 remaining then require_tool_calls_response resp else ok tt)) [
          | inr (e, c) ↦ let no = rw (judge, t, c) at h in cc
          | inl (u, c) ↦ elim (Result-cases (assistant_message resp)) [
            | inr (e, m) ↦ let no = rw (judge, t, c, m) at h in cc
            | inl (msg, m) ↦ judged msg.tool_calls remaining (rw (judge, t, c, m) at h)
          ]
        ]
  ]
    where
      judged :
          (tcs : List ToolCall) (remaining : ℕ)
          → elim tcs as (λ _. Verdict) [
            | [] ↦ if ltb remaining 1 then refused else finished (raise reasoning_stage_error)
            | tc ∷ rest ↦ judge_tool_call mail render_args allowed remaining tc
          ]
            ≡ finished (ok d)
          → IsAllowed allowed d.target
      judged [] zero h = cc
      judged [] (suc n) h = ground (arith, h)
      judged (tc ∷ rest) n h = judge_tool_call-IsAllowed allowed n tc h

  module _ (completion : ℕ → ℕ → Result ModelResponse) (length_max_attempts : ℕ) where
    decide_loop-IsAllowed :
        (allowed : List FsmStage) (remaining fuel a r : ℕ) {d : RouteDecision}
        → decide_loop mail render_args completion length_max_attempts allowed remaining fuel a r
          ≡ some (ok d)
        → IsAllowed allowed d.target
    unfolding decide_loop
    decide_loop-IsAllowed allowed remaining zero a r h = cc
    decide_loop-IsAllowed allowed remaining (suc fuel) a r {d} h =
        elim (Result-cases (completion a r)) [
          | inr (e, c) ↦ let no = rw (decide_loop, c) at h in cc
          | inl (resp, c) ↦ elim (verdict-cases (judge mail render_args allowed remaining resp)) [
            | inl (x, v) ↦
                let same : some x ≡ some (ok d) = rw (decide_loop, c, v) at h in
                judge-IsAllowed allowed remaining resp (v ∙ ap finished (some-injective same))
            | inr (inl v) ↦ elim (Bool-cases (leb length_max_attempts (a + 1))) [
              | inl t ↦ let no = rw (decide_loop, c, v, t) at h in cc
              | inr f ↦
                  decide_loop-IsAllowed allowed remaining fuel (a + 1) r
                    (rw (decide_loop, c, v, f) at h)
            ]
            | inr (inr v) ↦ elim (Bool-cases (ltb max_wrong_tool_retries (r + 1))) [
              | inl t ↦ let no = rw (decide_loop, c, v, t) at h in cc
              | inr f ↦
                  decide_loop-IsAllowed allowed remaining fuel a (r + 1)
                    (rw (decide_loop, c, v, f) at h)
            ]
          ]
        ]

    -- Every decision that `_decide` returns goes to a stage that `compute_allowed_routes` gives: to
    -- `response_finalize` alone where the hop budget is exhausted, to `formal_reason` or
    -- `memory_query` where the gate is active, to a target stage of reasoning otherwise.
    pub decide-among :
        (fuel : ℕ) (gate_active : Bool) (remaining : ℕ) (d : RouteDecision)
        → decide mail render_args completion length_max_attempts fuel gate_active remaining
          ≡ some (ok d)
        → among d.target (compute_allowed_routes gate_active remaining) ≡ true
    unfolding decide IsAllowed compute_allowed_routes
    decide-among fuel gate_active remaining d h =
        let safe =
          decide_loop-IsAllowed (compute_allowed_routes gate_active remaining) remaining fuel 0 0
            h in
        elim (Bool-cases (ltb remaining 1)) [
          | inl t ↦ rw t (not-false _ (rw t at safe.1))
          | inr f ↦ elim (Bool-cases gate_active) [
            | inl t ↦ rw (f, t) (not-false _ (rw (f, t) at safe.1))
            | inr g ↦ rw (f, g) safe.0
          ]
        ]

    -- `_decide` ends after at most `length_max_attempts` truncated answers and twelve refused tools:
    -- with more rounds than `length_max_attempts + 13` it returns a decision or raises.
    pub decide-total :
        (fuel : ℕ) (gate_active : Bool) (remaining : ℕ)
        → length_max_attempts + 13 < fuel
        → (d : Result RouteDecision) × (decide mail render_args completion length_max_attempts fuel
              gate_active remaining
            ≡ some d)
    unfolding decide
    decide-total fuel gate_active remaining h =
        decide_loop-total mail render_args completion length_max_attempts
          (compute_allowed_routes gate_active remaining) remaining fuel 0 0 (omega (arith, h))
