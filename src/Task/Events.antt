-- ===== src/Task/Events.antt =====
-- The operations as a sequence of events on single subtasks, and the status of one subtask after
-- them.
use mathlib.Core.List.{foldl-append, foldl-map}
use threlium.Prelude.{
  ◌≡◌, refl, ap, ◌∙◌, sym, true, Option, none, some, List, [], ◌∷◌, ◌++◌, map, foldl, arith,
  if◌then◌else◌, Option-cases, Bool-cases, inl, inr,
}
use threlium.Prelude.Text.{Text, text_key, text_eq, text_eq_iff}
use threlium.Prelude.Dict
use threlium.Prelude.Dict.{get-set}
use threlium.Task.Status.{SubtaskStatus, pending, merge}
use threlium.Task.Ledger.{TaskSubtaskState}
use threlium.Task.Ops.{TaskOp, init_op, upsert_op, NewSubtask, SubtaskStatusUpdate, TaskSubtaskDef}
use threlium.Task.Reduce.{States, Reduction, ensure_exists, apply_update, reduce_step}

pub data Event : Type 0 where
  add : Text → Text → SubtaskStatus → Event
  update : Text → SubtaskStatus → Event

unfoldable pub op_events : TaskOp → List Event
op_events (init_op op) = map (λ (d : TaskSubtaskDef). add d.content_id d.text pending) op.subtasks
op_events (upsert_op op) =
    map (λ (a : NewSubtask). add a.content_id a.text a.status) op.additions
    ++ map (λ (u : SubtaskStatusUpdate). update u.content_id u.status) op.updates

unfoldable pub events : List TaskOp → List Event
unfolding op_events
events [] = []
events (op ∷ ops) = op_events op ++ events ops

unfoldable pub apply_event : States → Event → States
unfolding ensure_exists apply_update
apply_event st (add content_id text status) = ensure_exists st content_id text status
apply_event st (update content_id status) = apply_update st content_id status

step-events :
    (r : Reduction) (op : TaskOp)
    → (reduce_step r op).states ≡ foldl apply_event r.states (op_events op)
step-events r (init_op op) =
    unfold reduce_step apply_event op_events in sym (foldl-map _ _ op.subtasks r.states)
step-events r (upsert_op op) =
    unfold reduce_step apply_event op_events in (rw (foldl-append, foldl-map, foldl-map))

-- The loop applies the events one after another.
pub loop-events :
    (r : Reduction) (ops : List TaskOp)
    → (foldl reduce_step r ops).states ≡ foldl apply_event r.states (events ops)
loop-events r [] = unfold events in refl
loop-events r (op ∷ ops) =
    loop-events (reduce_step r op) ops
    ∙ unfold events in
      (ap (λ st. foldl apply_event st (events ops)) (step-events r op)
        ∙ sym (foldl-append apply_event r.states (op_events op) (events ops)))

abbrev pub its_status : Option TaskSubtaskState → Option SubtaskStatus
its_status none = none
its_status (some s) = some s.status

unfoldable pub status_of : States → Text → Option SubtaskStatus
status_of st k = its_status (Dict.get k st)

-- What an event does to the status of the subtask `k`.
abbrev pub status_step : Text → Option SubtaskStatus → Event → Option SubtaskStatus
status_step k none (add j t s) = if text_eq j k then some s else none
status_step k none (update j s) = none
status_step k (some c) (add j t s) = if text_eq j k then some (merge c s) else some c
status_step k (some c) (update j s) = if text_eq j k then some (merge c s) else some c

status_of-set :
    (st : States) (j k : Text) (v : TaskSubtaskState)
    → status_of (Dict.set j v st) k ≡ (if text_eq j k then some v.status else status_of st k)
unfolding status_of
status_of-set st j k v = elim (Bool-cases (text_eq j k)) [
  | inl t ↦ rw (get-set, t)
  | inr f ↦ rw (get-set, f)
]

its_status-eq :
    (st : States) (j k : Text) (o : Option TaskSubtaskState)
    → Dict.get j st ≡ o
    → text_eq j k ≡ true
    → status_of st k ≡ its_status o
unfolding status_of
its_status-eq st j k o e t = rw (← (text_eq_iff j k).0 t, e)

-- An event on `j` is nothing to the other subtasks.
status_of-apply :
    (st : States) (ev : Event) (k : Text)
    → status_of (apply_event st ev) k ≡ status_step k (status_of st k) ev
unfolding apply_event
status_of-apply st (add j t s) k = elim (Option-cases (Dict.get j st)) [
  | inl e ↦
      rw (e, ensure_exists) (status_of-set st j k _ ∙ ground (arith, its_status-eq st j k none e))
  | inr (cur, e) ↦
      rw (e, ensure_exists)
        (status_of-set st j k _ ∙ ground (arith, its_status-eq st j k (some cur) e))
]
status_of-apply st (update j s) k = elim (Option-cases (Dict.get j st)) [
  | inl e ↦ rw (e, apply_update) (ground (arith, its_status-eq st j k none e))
  | inr (cur, e) ↦
      rw (e, apply_update)
        (status_of-set st j k _ ∙ ground (arith, its_status-eq st j k (some cur) e))
]

pub status_of-events :
    (st : States) (es : List Event) (k : Text)
    → status_of (foldl apply_event st es) k ≡ foldl (status_step k) (status_of st k) es
status_of-events st [] k = refl
status_of-events st (ev ∷ es) k =
    status_of-events (apply_event st ev) es k
    ∙ ap (λ o. foldl (status_step k) o es) (status_of-apply st ev k)
