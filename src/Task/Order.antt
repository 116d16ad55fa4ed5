-- ===== src/Task/Order.antt =====
-- The reduction does not depend on the order of the operations, as long as no update comes before
-- the subtask that it names.
use mathlib.Core.List.{Perm, Permᴰ}
use mathlib.Core.Path.{fun_ext}
use mathlib.Core.Logic.{∥∥₁_elim}
use threlium.Prelude.{
  ◌≡◌, refl, sym, ap, ◌∙◌, Bool, true, false, Option, none, some, List, [], ◌∷◌, map, foldl, arith,
  if◌then◌else◌, is_some, Bool-cases, Option-cases, inl, inr,
}
use threlium.Prelude.Text.{Text, text_key, text_eq, text_eq_iff}
use threlium.Prelude.Dict
use threlium.Prelude.Dict.{get-set}
use threlium.Prelude.Sort.{sorted}
use threlium.Prelude.Distinct.{distinct, distinct-set, sorted-ext, contains-keys}
use threlium.Task.Status.{SubtaskStatus, merge, merge_comm, merge_assoc}
use threlium.Task.Ledger.{TaskSubtaskState, TaskLedger, pick}
use threlium.Task.Ops.{TaskOp}
use threlium.Task.Reduce.{States, ensure_exists, apply_update, reduce_loop, reduce_task_ops}
use threlium.Task.Events.{
  Event, add, update, events, apply_event, loop-events, status_of, status_step, status_of-events,
}

-- The join of statuses, if there are any.
abbrev pub join : Option SubtaskStatus → Option SubtaskStatus → Option SubtaskStatus
join none y = y
join (some a) none = some a
join (some a) (some b) = some (merge a b)

join_comm : (x y : Option SubtaskStatus) → join x y ≡ join y x
join_comm none none = refl
join_comm none (some b) = refl
join_comm (some a) none = refl
join_comm (some a) (some b) = ap some (merge_comm a b)

join_assoc : (x y z : Option SubtaskStatus) → join (join x y) z ≡ join x (join y z)
join_assoc none y z = refl
join_assoc (some a) none z = refl
join_assoc (some a) (some b) none = refl
join_assoc (some a) (some b) (some c) = ap some (merge_assoc a b c)

-- What an event says of the status of `k`.
abbrev pub says : Text → Event → Option SubtaskStatus
says k (add j t s) = if text_eq j k then some s else none
says k (update j s) = if text_eq j k then some s else none

-- The join of all that the events say of `k`.
unfoldable pub joined : Text → List Event → Option SubtaskStatus
joined k [] = none
joined k (ev ∷ es) = join (says k ev) (joined k es)

-- The first event on `k` creates it.
unfoldable pub ready : Text → List Event → Bool
ready k [] = true
ready k (add j t s ∷ es) = if text_eq j k then true else ready k es
ready k (update j s ∷ es) = if text_eq j k then false else ready k es

pub fold-some :
    (k : Text) (c : SubtaskStatus) (es : List Event)
    → foldl (status_step k) (some c) es ≡ join (some c) (joined k es)
unfolding joined
fold-some k c [] = refl
fold-some k c (add j t s ∷ es) = elim (Bool-cases (text_eq j k)) [
  | inl h ↦ rw h (fold-some k (merge c s) es ∙ join_assoc (some c) (some s) (joined k es))
  | inr h ↦ rw h (fold-some k c es)
]
fold-some k c (update j s ∷ es) = elim (Bool-cases (text_eq j k)) [
  | inl h ↦ rw h (fold-some k (merge c s) es ∙ join_assoc (some c) (some s) (joined k es))
  | inr h ↦ rw h (fold-some k c es)
]

fold-none :
    (k : Text) (es : List Event) → ready k es ≡ true → foldl (status_step k) none es ≡ joined k es
unfolding joined ready
fold-none k [] r = refl
fold-none k (add j t s ∷ es) r = elim (Bool-cases (text_eq j k)) [
  | inl h ↦ rw h (fold-some k s es)
  | inr h ↦ rw h (fold-none k es (ground arith))
]
fold-none k (update j s ∷ es) r = elim (Bool-cases (text_eq j k)) [
  | inl h ↦ ground arith
  | inr h ↦ rw h (fold-none k es (ground arith))
]

joined-permᴰ : (k : Text) {es es' : List Event} → Permᴰ es es' → joined k es ≡ joined k es'
unfolding joined
joined-permᴰ k Permᴰ.nil = refl
joined-permᴰ k (Permᴰ.cons e p) = cc (ap (says k) e, joined-permᴰ k p)
joined-permᴰ k (Permᴰ.swap {a = a} {b = b} {l = l'} e f) =
    sym (join_assoc (says k a) (says k b) (joined k l'))
    ∙ ap (λ o. join o (joined k l')) (join_comm (says k a) (says k b))
    ∙ join_assoc (says k b) (says k a) (joined k l')
    ∙ cc (ap (says k) e, ap (says k) f)
joined-permᴰ k (Permᴰ.trans p q) = joined-permᴰ k p ∙ joined-permᴰ k q

status_set : IsSet (Option SubtaskStatus)
status_set = hlevel

joined-perm : (k : Text) {es es' : List Event} → Perm es es' → joined k es ≡ joined k es'
joined-perm k {es} {es'} p = ∥∥₁_elim p (status_set _ _) (joined-permᴰ k)

-- The dictionary names each subtask by its content id, and none twice.
pub record IsKeyed (st : States) : Type 0 where
  pub named : (k : Text) (s : TaskSubtaskState) → Dict.get k st ≡ some s → s.content_id ≡ k
  pub once : distinct (Dict.keys st) ≡ true

set-IsKeyed :
    (st : States) (k : Text) (v : TaskSubtaskState)
    → v.content_id ≡ k
    → IsKeyed st
    → IsKeyed (Dict.set k v st)
set-IsKeyed st k v e h = record {
  named = λ j s g. elim (Bool-cases (text_eq k j)) [
    | inl t ↦ ground (arith, get-set k j v st, text_eq_iff k j)
    | inr f ↦ h.named j s (ground (arith, get-set k j v st))
  ];
  once = distinct-set k v st h.once;
}

apply_event-IsKeyed : (st : States) (ev : Event) → IsKeyed st → IsKeyed (apply_event st ev)
unfolding apply_event
apply_event-IsKeyed st (add j t s) h = elim (Option-cases (Dict.get j st)) [
  | inl e ↦ rw (e, ensure_exists) (set-IsKeyed st j _ refl h)
  | inr (cur, e) ↦ rw (e, ensure_exists) (set-IsKeyed st j _ (h.named j cur e) h)
]
apply_event-IsKeyed st (update j s) h = elim (Option-cases (Dict.get j st)) [
  | inl e ↦ rw (e, apply_update) h
  | inr (cur, e) ↦ rw (e, apply_update) (set-IsKeyed st j _ (h.named j cur e) h)
]

fold-IsKeyed : (st : States) (es : List Event) → IsKeyed st → IsKeyed (foldl apply_event st es)
fold-IsKeyed st [] h = h
fold-IsKeyed st (ev ∷ es) h = fold-IsKeyed (apply_event st ev) es (apply_event-IsKeyed st ev h)

pub loop-IsKeyed : (ops : List TaskOp) → IsKeyed (reduce_loop ops).states
unfolding reduce_loop
loop-IsKeyed ops = rw loop-events (
    fold-IsKeyed [] (events ops)
      (record { named = λ k s g. unfold Dict.get in cc; once = unfold distinct in refl }))

-- The content ids and the statuses of a ledger, in its order.
abbrev pub statuses : TaskLedger → List (Text × SubtaskStatus)
statuses l = map (λ s. (s.content_id, s.status)) l.subtasks

abbrev put_status :
    Text → Option SubtaskStatus → List (Text × SubtaskStatus) → List (Text × SubtaskStatus)
put_status k none rest = rest
put_status k (some s) rest = (k, s) ∷ rest

listed : (Text → Option SubtaskStatus) → List Text → List (Text × SubtaskStatus)
listed f [] = []
listed f (k ∷ ks) = put_status k (f k) (listed f ks)

listed-pick :
    (st : States) (ks : List Text)
    → IsKeyed st
    → map (λ s. (s.content_id, s.status)) (pick st ks) ≡ listed (status_of st) ks
unfolding listed pick status_of
listed-pick st [] h = refl
listed-pick st (k ∷ ks) h = elim (Option-cases (Dict.get k st)) [
  | inl e ↦ ground (arith, listed-pick st ks h)
  | inr (s, e) ↦ ground (arith, h.named k s e, listed-pick st ks h)
]

-- What the loop leaves of `k` is the join of all that the operations say of it.
pub status_of-loop :
    (ops : List TaskOp) (k : Text)
    → ready k (events ops) ≡ true
    → status_of (reduce_loop ops).states k ≡ joined k (events ops)
unfolding reduce_loop
status_of-loop ops k r =
    rw loop-events
      (status_of-events [] (events ops) k ∙ unfold status_of Dict.get in fold-none k (events ops) r)

is_some-status_of : (st : States) (k : Text) → is_some (Dict.get k st) ≡ is_some (status_of st k)
unfolding status_of
is_some-status_of st k = ground arith

abbrev pub IsReady : List TaskOp → Type 0
IsReady ops = (k : Text) → ready k (events ops) ≡ true

module _ (ops ops' : List TaskOp) (r : IsReady ops) (r' : IsReady ops')
    (p : Perm (events ops) (events ops')) where
  same_status :
      (k : Text) → status_of (reduce_loop ops).states k ≡ status_of (reduce_loop ops').states k
  same_status k = status_of-loop ops k (r k) ∙ joined-perm k p ∙ sym (status_of-loop ops' k (r' k))

  same_keys :
      sorted (Dict.keys (reduce_loop ops).states) ≡ sorted (Dict.keys (reduce_loop ops').states)
  same_keys = sorted-ext _ _ (loop-IsKeyed ops).once (loop-IsKeyed ops').once (λ k.
      contains-keys k _
      ∙ is_some-status_of _ k
      ∙ ap is_some (same_status k)
      ∙ sym (is_some-status_of _ k)
      ∙ sym (contains-keys k _))

  -- The ledgers have the same subtasks, in the same order and with the same statuses, if the
  -- operations hold the same events and neither updates a subtask before it is added.
  pub reduce_task_ops-perm : statuses (reduce_task_ops ops) ≡ statuses (reduce_task_ops ops')
  unfolding reduce_task_ops
  reduce_task_ops-perm =
      listed-pick _ _ (loop-IsKeyed ops)
      ∙ ap (λ f. listed f (sorted (Dict.keys (reduce_loop ops).states))) (fun_ext same_status)
      ∙ ap (listed (status_of (reduce_loop ops').states)) same_keys
      ∙ sym (listed-pick _ _ (loop-IsKeyed ops'))
