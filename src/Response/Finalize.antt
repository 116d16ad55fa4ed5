-- ===== src/Response/Finalize.antt =====
-- `main` of threlium/states/response_finalize.py: the answer to the user, or a notice to the model.
use threlium.Prelude.{
  ◌∙◌, ℕ, ◌≡◌, refl, ltb, Bool, true, false, not, ◌&&◌, ◌||◌, inl, inr, Option, none, some, List,
  [], ◌∷◌, arith, is_some, if◌then◌else◌, Result, ok, ◌>>=◌, >>=-eq-ok, ok-injective, Bool-cases,
}
use threlium.Prelude.Text.{Text, strip}
use threlium.Prelude.Wire.{parse_line, parse, parse_single_line}
use threlium.Stage.Address.{MailLib}
use threlium.Irt.Snapshot.{Snapshot}
use threlium.Task.Ledger.{TaskLedger}
use threlium.Task.Gate.{ledger_has_open_work}
use threlium.Task.Collect.{TaskLib, task_ledger_at}
use threlium.Response.Ops.{ResponseOp, reduce_ops}
use threlium.Response.Collect.{ResponseLib, collect_ops}

-- The templates that the stage renders.
pub record FinalizePrompts : Type 0 where
  pub chunk_assembly : List Text → Text
  pub compose : Option Text → Option Text → Text
  pub fallback_subject : Text
  pub response_not_formed : Text
  pub task_incomplete : TaskLedger → Text

-- What the stage emits: a step to `egress_router`, its history and system part the same text, with
-- a subject; or a step to `enrich` with a notice.
pub data FinalizeOutcome : Type 0 where
  to_egress : Text → Text → FinalizeOutcome
  to_enrich : Text → FinalizeOutcome

-- `text.strip() or None`
unfoldable pub strip_or_none : Text → Option Text
unfolding strip
strip_or_none text = elim (strip text) [ [] ↦ none | c ∷ t ↦ some (c ∷ t) ]

-- Whether the outcome goes to the user.
unfoldable pub is_egress : FinalizeOutcome → Bool
is_egress (to_egress body subject) = true
is_egress (to_enrich notice) = false

-- `budget_exhausted`
unfoldable pub budget_exhausted_at : ℕ → Bool
budget_exhausted_at remaining = ltb remaining 1

module _ (mail : MailLib) (lib : ResponseLib) (tasks : TaskLib) (prompts : FinalizePrompts) where
  unfoldable pub buffer_text_at : List ResponseOp → Option Text
  unfolding strip_or_none reduce_ops
  buffer_text_at ops = strip_or_none (reduce_ops prompts.chunk_assembly ops)

  -- `subject_raw`
  unfoldable pub subject_raw : Option Text → Text
  unfolding strip
  subject_raw none = strip prompts.fallback_subject
  subject_raw (some value) = value

  -- The step to `egress_router`.
  unfoldable pub send : Text → Option Text → Result FinalizeOutcome
  unfolding parse_line subject_raw
  send body subj = parse_line (subject_raw subj) >>= λ subject. ok (to_egress body subject)

  -- The part of `main` behind the gate.
  unfoldable pub answer : Bool → Option Text → Option Text → Option Text → Result FinalizeOutcome
  unfolding strip parse send
  answer budget_exhausted buffer_text inline_content subj =
      if is_some buffer_text || is_some inline_content
      then send (strip (prompts.compose buffer_text inline_content)) subj
      else if budget_exhausted
      then send (strip prompts.response_not_formed) subj
      else ok (to_enrich (parse (some (strip prompts.response_not_formed))))

  unfoldable pub gated :
      Bool → Option Text → Option Text → TaskLedger → Option Text → Result FinalizeOutcome
  unfolding answer ledger_has_open_work parse_single_line strip parse
  gated budget_exhausted buffer_text inline_content ledger subject_header =
      if not budget_exhausted
        && (is_some buffer_text || is_some inline_content)
        && ledger_has_open_work ledger
      then ok (to_enrich (parse (some (strip (prompts.task_incomplete ledger)))))
      else (parse_single_line subject_header >>= λ subj.
          answer budget_exhausted buffer_text inline_content subj)

  -- `main`, on the text of the `<system>` part, the `Subject` and the remaining budget of the
  -- letter, and its chain.
  unfoldable pub response_finalize_main :
      Text → Option Text → ℕ → List Snapshot → Result FinalizeOutcome
  unfolding strip_or_none gated collect_ops task_ledger_at budget_exhausted_at buffer_text_at
  response_finalize_main system_text subject_header remaining chain =
      collect_ops mail lib chain >>= λ ops.
      gated (budget_exhausted_at remaining) (buffer_text_at ops) (strip_or_none system_text)
        (task_ledger_at mail tasks chain) subject_header

  send-is_egress :
      (body : Text) (subj : Option Text) {o : FinalizeOutcome}
      → send body subj ≡ ok o
      → is_egress o ≡ true
  unfolding send is_egress
  send-is_egress body subj h =
      let (subject, e, f) = >>=-eq-ok (parse_line (subject_raw subj)) _ h in
      rw (← ok-injective f) refl

  answer-is_egress :
      (x : Bool) (b i : Option Text) (subj : Option Text) {o : FinalizeOutcome}
      → answer x b i subj ≡ ok o
      → is_egress o ≡ (x || (is_some b || is_some i))
  unfolding answer is_egress
  answer-is_egress x b i subj h = elim (Bool-cases (is_some b || is_some i)) [
    | inl t ↦ rw t (send-is_egress _ subj (rw t at h) ∙ ground arith)
    | inr f ↦ elim (Bool-cases x) [
      | inl t ↦ rw (f, t) (send-is_egress _ subj (rw (f, t) at h))
      | inr g ↦ rw (f, g) (rw (← ok-injective (rw (f, g) at h)) refl)
    ]
  ]

  gated-is_egress :
      (x : Bool) (b i : Option Text) (ledger : TaskLedger) (header : Option Text)
      {o : FinalizeOutcome}
      → gated x b i ledger header ≡ ok o
      → is_egress o ≡ (x || ((is_some b || is_some i) && not (ledger_has_open_work ledger)))
  unfolding gated is_egress
  gated-is_egress x b i ledger header {o} h =
      elim (Bool-cases (not x && (is_some b || is_some i) && ledger_has_open_work ledger)) [
        | inl t ↦ let same = ok-injective (rw t at h) in rw (← same) (ground (arith, t))
        | inr f ↦
            let (subj, e, g) = >>=-eq-ok (parse_single_line header) _ (rw f at h) in
            answer-is_egress x b i subj g ∙ ground (arith, f)
      ]

  -- Where the answer of a turn goes. If `main` returns at all, then it steps to `egress_router`
  -- exactly where the hop budget of the level is exhausted, or there is something to send (text in
  -- the buffer or in the letter) and the ledger of the frame has no open work; otherwise it steps
  -- to `enrich`.
  pub response_finalize_main-is_egress :
      (system_text : Text) (header : Option Text) (remaining : ℕ) (chain : List Snapshot)
      (o : FinalizeOutcome)
      → response_finalize_main system_text header remaining chain ≡ ok o
      → (ops : List ResponseOp) × (collect_ops mail lib chain ≡ ok ops)
        × (is_egress o ≡ (
            ltb remaining 1
            || ((is_some (buffer_text_at ops) || is_some (strip_or_none system_text))
                && not (ledger_has_open_work (task_ledger_at mail tasks chain)))))
  unfolding response_finalize_main budget_exhausted_at
  response_finalize_main-is_egress system_text header remaining chain o h =
      let (ops, e, g) = >>=-eq-ok (collect_ops mail lib chain) _ h in
      (
        ops,
        e,
        gated-is_egress (budget_exhausted_at remaining) (buffer_text_at ops)
            (strip_or_none system_text) (task_ledger_at mail tasks chain) header g,
      )
