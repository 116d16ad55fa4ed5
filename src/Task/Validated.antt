-- ===== src/Task/Validated.antt =====
-- The operation that the stage `tasks_upsert` makes from the arguments of a call: no update that it
-- accepts is lost in the reduction.
use mathlib.Core.List.{append_assoc}
use threlium.Prelude.{
  runtime_error, ◌≤◌, ◌≡◌, sym, ap, ◌∙◌, true, ◌&&◌, some, List, [], ◌∷◌, ◌++◌, map, foldl, arith,
  ok, raise_if, is_some, Option-cases, inl, inr, All, is_empty, Key-refl, >>=-eq-ok, ok-injective,
}
use threlium.Prelude.Text.{Text, text_key, text_eq_iff}
use threlium.Prelude.Wire.{require}
use threlium.Prelude.Dict
use threlium.Prelude.Sort.{sorted, contains}
use threlium.Task.Status.{SubtaskStatus, rank, merge, rank-merge}
use threlium.Task.Ledger.{pick, content_ids}
use threlium.Task.Ops.{
  TaskOp, upsert_op, TasksUpsertOp, NewSubtask, SubtaskStatusUpdate, SubtaskStatusUpdateArg,
  TasksUpsertToolArgs, build_updates, build_additions, from_tool_args, is_unknown,
}
use threlium.Task.Reduce.{States, reduce_loop, reduce_task_ops}
use threlium.Task.Events.{
  its_status, Event, update, add, events, op_events, apply_event, status_of, status_step,
  status_of-events,
}
use threlium.Task.Order.{says, join, joined, fold-some, IsKeyed, loop-IsKeyed}
use threlium.Task.Sticky.{Follows-join, loop-append}

contains-pick :
    (k : Text) (st : States) (ks : List Text)
    → IsKeyed st
    → contains k (map (λ s. s.content_id) (pick st ks)) ≡ true
    → is_some (Dict.get k st) ≡ true
unfolding pick contains
contains-pick k st [] h c = cc
contains-pick k st (j ∷ js) h c = elim (Option-cases (Dict.get j st)) [
  | inl e ↦ contains-pick k st js h (rw (e, pick) at c)
  | inr (s, e) ↦ ground (arith, h.named j s e, text_eq_iff s.content_id k, contains-pick k st js h)
]

-- A content id of the ledger has a status.
known_status :
    (ops : List TaskOp) (k : Text)
    → contains k (content_ids (reduce_task_ops ops)) ≡ true
    → (a : SubtaskStatus) × (status_of (reduce_loop ops).states k ≡ some a)
unfolding reduce_task_ops content_ids status_of
known_status ops k c =
    let here =
      contains-pick k _ (sorted (Dict.keys (reduce_loop ops).states)) (loop-IsKeyed ops) c in
    elim (Option-cases (Dict.get k (reduce_loop ops).states)) [
      | inl e ↦ ground arith
      | inr (s, e) ↦ (s.status, ap its_status e)
    ]

build_updates-known :
    (known : List Text) (args : List SubtaskStatusUpdateArg) (us : List SubtaskStatusUpdate)
    → build_updates (some known) args ≡ ok us
    → All (λ u. contains u.content_id known ≡ true) us
unfolding build_updates
build_updates-known known [] us h = rw (← ok-injective h) tt
build_updates-known known (su ∷ rest) us h =
    let (cid, e1, h1) = >>=-eq-ok (require (some su.content_id)) _ h in
    let (u, e2, h2) = >>=-eq-ok (raise_if (is_unknown (some known) cid) runtime_error) _ h1 in
    let (vs, e3, h3) = >>=-eq-ok (build_updates (some known) rest) _ h2 in
    rw (← ok-injective h3) (not_unknown cid e2, build_updates-known known rest vs e3)
  where
    not_unknown :
        (cid : Text) {u : Unit}
        → raise_if (is_unknown (some known) cid) runtime_error ≡ ok u
        → contains cid known ≡ true
    not_unknown cid e = ground arith

-- The updates of an accepted operation name content ids of the ledger.
accepted-known :
    (sha256_hex : Text → Text) (args : TasksUpsertToolArgs) (mid : Text) (known : List Text)
    (op : TasksUpsertOp)
    → from_tool_args sha256_hex args mid known ≡ ok op
    → All (λ u. contains u.content_id known ≡ true) op.updates
unfolding from_tool_args
accepted-known sha256_hex args mid known op h =
    let (adds, e1, h1) = >>=-eq-ok (build_additions sha256_hex args.new_subtasks) _ h in
    let (us, e2, h2) = >>=-eq-ok (build_updates (some known) args.subtask_updates) _ h1 in
    let (u, e3, h3) = >>=-eq-ok (raise_if (is_empty adds && is_empty us) runtime_error) _ h2 in
    rw (← ok-injective h3) (build_updates-known known args.subtask_updates us e2)

joined-at :
    (A B : List Event) (k : Text) (s : SubtaskStatus)
    → (d : SubtaskStatus) × (joined k (A ++ (update k s ∷ B)) ≡ some d) × (rank s ≤ rank d)
unfolding joined
joined-at [] B k s =
    let (d, e, f) = Follows-join s (joined k B) in (d, rw (Key-refl {K = Text} k) e, f.rank_grows)
joined-at (ev ∷ A) B k s =
    let (d, e, f) = joined-at A B k s in
    elim (Option-cases (says k ev)) [
      | inl n ↦ (d, rw (n, e), f)
      | inr (c, n) ↦ (merge c d, rw (n, e), omega (arith, (rank-merge c d).1))
    ]

-- The subtask has got as far as the update says.
pub record IsKept (st : States) (u : SubtaskStatusUpdate) : Type 0 where
  pub status : SubtaskStatus
  pub found : status_of st u.content_id ≡ some status
  pub reached : rank u.status ≤ rank status

IsKept-at :
    (st : States) (E A B : List Event) (u : SubtaskStatusUpdate) (a : SubtaskStatus)
    → status_of st u.content_id ≡ some a
    → E ≡ A ++ (update u.content_id u.status ∷ B)
    → IsKept (foldl apply_event st E) u
IsKept-at st E A B u a h e =
    let (d, j, r) = joined-at A B u.content_id u.status in
    record {
      status = merge a d;
      found =
          status_of-events st E u.content_id
          ∙ ap (λ o. foldl (status_step u.content_id) o E) h
          ∙ fold-some u.content_id a E
          ∙ ap (λ es. join (some a) (joined u.content_id es)) e
          ∙ ap (join (some a)) j;
      reached = omega (arith, (rank-merge a d).1);
    }

abbrev update_event : SubtaskStatusUpdate → Event
update_event u = update u.content_id u.status

IsKept-All :
    (ops : List TaskOp) (E A : List Event) (us : List SubtaskStatusUpdate)
    → E ≡ A ++ (map update_event us ++ [])
    → All (λ u. contains u.content_id (content_ids (reduce_task_ops ops)) ≡ true) us
    → All (IsKept (foldl apply_event (reduce_loop ops).states E)) us
IsKept-All ops E A [] e h = tt
IsKept-All ops E A (u ∷ us) e h =
    let (a, known) = known_status ops u.content_id h.0 in
    (
      IsKept-at (reduce_loop ops).states E A (map update_event us ++ []) u a known e,
      IsKept-All ops E (A ++ (update_event u ∷ [])) us
          (e ∙ sym (append_assoc A (update_event u ∷ []) (map update_event us ++ []))) h.1,
    )

-- Every update of an operation that `from_tool_args` accepts against the ledger reaches its subtask:
-- after the operation the subtask is there, at least as far as the update says.
pub from_tool_args-IsKept :
    (sha256_hex : Text → Text) (ops : List TaskOp) (args : TasksUpsertToolArgs) (mid : Text)
    (op : TasksUpsertOp)
    → from_tool_args sha256_hex args mid (content_ids (reduce_task_ops ops)) ≡ ok op
    → All (IsKept (reduce_loop (ops ++ (upsert_op op ∷ []))).states) op.updates
from_tool_args-IsKept sha256_hex ops args mid op h = rw loop-append (
    IsKept-All ops (events (upsert_op op ∷ []))
      (map (λ (x : NewSubtask). add x.content_id x.text x.status) op.additions) op.updates
      (unfold events op_events in append_assoc _ _ [])
      (accepted-known sha256_hex args mid (content_ids (reduce_task_ops ops)) op h))
