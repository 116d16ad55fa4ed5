-- ===== src/Task/Sticky.antt =====
-- What later operations can do to a subtask, and that an update which the stage has checked is not
-- lost.
use mathlib.Core.List.{foldl-append}
use threlium.Prelude.{◌≤◌, ◌≡◌, refl, ap, ◌∙◌, true, Option, none, some, List, ◌++◌, foldl, arith}
use threlium.Prelude.Text.{Text, text_key}
use threlium.Task.Status.{SubtaskStatus, rank, is_terminal, merge, rank-merge, is_terminal-merge}
use threlium.Task.Ops.{TaskOp}
use threlium.Task.Reduce.{reduce_loop}
use threlium.Task.Events.{
  events, apply_event, loop-events, status_of, status_step, status_of-events,
}
use threlium.Task.Order.{join, joined, fold-some}

-- `b` is where a subtask may go from the status `a`.
pub record Follows (a b : SubtaskStatus) : Type 0 where
  pub rank_grows : rank a ≤ rank b
  pub stays_terminal : is_terminal a ≡ true → is_terminal b ≡ true
  pub stays_done : a ≡ SubtaskStatus.done → b ≡ SubtaskStatus.done

Follows-merge : (a b : SubtaskStatus) → Follows a (merge a b)
Follows-merge a b = record {
  rank_grows = (rank-merge a b).0;
  stays_terminal = (is_terminal-merge a b).0;
  stays_done = λ e. rw e (is_terminal-merge a b).1;
}

pub Follows-join :
    (a : SubtaskStatus) (o : Option SubtaskStatus)
    → (b : SubtaskStatus) × (join (some a) o ≡ some b) × Follows a b
Follows-join a none =
    (a, refl, record { rank_grows = omega arith; stays_terminal = λ h. h; stays_done = λ e. e })
Follows-join a (some b) = (merge a b, refl, Follows-merge a b)

pub loop-append :
    (ops more : List TaskOp)
    → (reduce_loop (ops ++ more)).states ≡ foldl apply_event (reduce_loop ops).states (events more)
unfolding reduce_loop
loop-append ops more = rw foldl-append (loop-events _ more)

-- A subtask that the operations created is still there after more of them, its rank not lower; a
-- terminal one is still terminal, and a `done` one still `done`.
pub status_of-more :
    (ops more : List TaskOp) (k : Text) (a : SubtaskStatus)
    → status_of (reduce_loop ops).states k ≡ some a
    → (b : SubtaskStatus) × (status_of (reduce_loop (ops ++ more)).states k ≡ some b) × Follows a b
status_of-more ops more k a h =
    let (b, e, f) = Follows-join a (joined k (events more)) in
    (
      b,
      ap (λ st. status_of st k) (loop-append ops more)
          ∙ status_of-events _ (events more) k
          ∙ ap (λ o. foldl (status_step k) o (events more)) h
          ∙ fold-some k a (events more)
          ∙ e,
      f,
    )
