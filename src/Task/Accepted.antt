-- ===== src/Task/Accepted.antt =====
-- Which arguments of a call `TasksUpsertOp.from_tool_args` accepts.
use threlium.Prelude.{
  ◌≡◌, refl, Bool, true, false, not, ◌&&◌, some, List, [], ◌∷◌, map, all, Result, ok, raise,
  value_error, runtime_error, Error, is_empty, ◌⊎◌, inl, inr, Bool-cases,
}
use threlium.Prelude.Text.{Text, strip, text_key}
use threlium.Prelude.Wire.{require, parse_present_optional}
use threlium.Prelude.Sort.{contains}
use threlium.Task.Ops.{
  TasksUpsertOp, NewSubtask, NewSubtaskArg, SubtaskStatusUpdate, SubtaskStatusUpdateArg,
  TasksUpsertToolArgs, build_updates, build_additions, from_tool_args, is_unknown,
}
use threlium.Task.Words.{from_text}

abbrev pub has_text : Text → Bool
has_text s = not (is_empty (strip s))

abbrev pub names_known : List Text → SubtaskStatusUpdateArg → Bool
names_known known su = has_text su.content_id && contains (strip su.content_id) known

-- The update that an argument stands for.
abbrev pub update_of : SubtaskStatusUpdateArg → SubtaskStatusUpdate
update_of su = record { content_id = strip su.content_id; status = su.status }

-- The subtask that an argument adds.
abbrev pub addition_of : (Text → Text) → NewSubtaskArg → NewSubtask
addition_of sha256_hex na = record {
  content_id = from_text sha256_hex (strip na.text);
  text = strip na.text;
  status = na.status;
}

-- There is an addition or an update, every addition has a text, and every update names a content id
-- that is known.
abbrev pub is_acceptable : TasksUpsertToolArgs → List Text → Bool
is_acceptable args known =
    all (λ na. has_text na.text) args.new_subtasks
    && all (names_known known) args.subtask_updates
    && not (is_empty args.new_subtasks && is_empty args.subtask_updates)

is_empty-map {ℓ κ} :
    {A : Type ℓ} {B : Type κ} (f : A → B) (xs : List A) → is_empty (map f xs) ≡ is_empty xs
is_empty-map f [] = refl
is_empty-map f (x ∷ xs) = refl

-- The call returns `a` where the test holds, and raises elsewhere.
abbrev pub Answers {ℓ} : {A : Type ℓ} → Bool → Result A → A → Type ℓ
Answers test r a = ((test ≡ true) × (r ≡ ok a)) ⊎ ((test ≡ false) × (e : Error) × (r ≡ raise e))

require-Answers : (s : Text) → Answers (has_text s) (require (some s)) (strip s)
unfolding require
require-Answers s = by_text (strip s) refl
  where
    by_text : (t : Text) → strip s ≡ t → Answers (not (is_empty t)) (require (some s)) t
    by_text [] e = inr (refl, value_error, rw (require, e) refl)
    by_text (c ∷ t) e = inl (refl, rw (require, e) refl)

build_updates-Answers :
    (known : List Text) (args : List SubtaskStatusUpdateArg)
    → Answers (all (names_known known) args) (build_updates (some known) args) (map update_of args)
unfolding build_updates is_unknown
build_updates-Answers known [] = inl (refl, refl)
build_updates-Answers known (su ∷ rest) = elim (require-Answers su.content_id) [
  | inr (f, e, h) ↦ inr (rw f refl, e, rw (build_updates, h) refl)
  | inl (t, h) ↦ elim (Bool-cases (contains (strip su.content_id) known)) [
    | inr unknown ↦
        inr (rw (t, unknown) refl, runtime_error, rw (build_updates, h, is_unknown, unknown) refl)
    | inl found ↦ elim (build_updates-Answers known rest) [
      | inl (u, k) ↦ inl (rw (t, found, u) refl, rw (build_updates, h, is_unknown, found, k) refl)
      | inr (u, e, k) ↦
          inr (rw (t, found, u) refl, e, rw (build_updates, h, is_unknown, found, k) refl)
    ]
  ]
]

module _ (sha256_hex : Text → Text) where
  build_additions-Answers :
      (args : List NewSubtaskArg)
      → Answers
          (all (λ na. has_text na.text) args)
          (build_additions sha256_hex args)
          (map (addition_of sha256_hex) args)
  unfolding build_additions
  build_additions-Answers [] = inl (refl, refl)
  build_additions-Answers (na ∷ rest) = elim (require-Answers na.text) [
    | inr (f, e, h) ↦ inr (rw f refl, e, rw (build_additions, h) refl)
    | inl (t, h) ↦ elim (build_additions-Answers rest) [
      | inl (u, k) ↦ inl (rw (t, u) refl, rw (build_additions, h, k) refl)
      | inr (u, e, k) ↦ inr (rw (t, u) refl, e, rw (build_additions, h, k) refl)
    ]
  ]

  -- The operation that the arguments stand for.
  abbrev pub operation_of : TasksUpsertToolArgs → Text → TasksUpsertOp
  operation_of args mid = record {
    additions = map (addition_of sha256_hex) args.new_subtasks;
    updates = map update_of args.subtask_updates;
    discovery_append = parse_present_optional args.discovery_append;
    next_action = parse_present_optional args.next_action;
    blockers = parse_present_optional args.blockers;
    allow_finalize_with_blocker = args.allow_finalize_with_blocker;
    message_id_inner = mid;
  }

  -- from_tool_args returns where there is an addition or an update, every addition has a text and
  -- every update names a content id of the ledger, and raises elsewhere. The operation that it
  -- returns holds an addition and an update for each that the arguments have, in order, with the
  -- text or the content id stripped.
  pub from_tool_args-is_acceptable :
      (args : TasksUpsertToolArgs) (mid : Text) (known : List Text)
      → Answers
          (is_acceptable args known)
          (from_tool_args sha256_hex args mid known)
          (operation_of args mid)
  unfolding from_tool_args
  from_tool_args-is_acceptable args mid known = elim (build_additions-Answers args.new_subtasks) [
    | inr (f, e, h) ↦ inr (rw f refl, e, rw (from_tool_args, h) refl)
    | inl (t, h) ↦ elim (build_updates-Answers known args.subtask_updates) [
      | inr (f, e, k) ↦ inr (rw (t, f) refl, e, rw (from_tool_args, h, k) refl)
      | inl (u, k) ↦
          elim (Bool-cases (is_empty args.new_subtasks && is_empty args.subtask_updates)) [
            | inl none_given ↦ inr (
              rw (t, u, none_given) refl,
              runtime_error,
              rw (from_tool_args, h, k, is_empty-map, is_empty-map, none_given) refl,
            )
            | inr given ↦ inl (
              rw (t, u, given) refl,
              rw (from_tool_args, h, k, is_empty-map, is_empty-map, given) refl,
            )
          ]
    ]
  ]
