-- ===== src/Task/Gate.antt =====
-- `ledger_has_open_work` of threlium/task/gate.py, against what it promises.
use threlium.Prelude.{
  ◌⊎◌, arith, [], refl, ◌∷◌, all, select, any, ◌↔◌, List, ◌≡◌, Bool, true, false, not, ◌&&◌,
  if◌then◌else◌, is_some, is_empty,
}
use threlium.Task.Status.{same, is_terminal, done}
use threlium.Task.Ledger.{
  TaskSubtaskState, TaskLedger, ledger_is_empty, open_subtasks, done_subtasks,
}

unfoldable pub ledger_has_open_work : TaskLedger → Bool
unfolding ledger_is_empty open_subtasks done_subtasks
ledger_has_open_work l =
    if ledger_is_empty l
    then true
    else if not (is_empty (open_subtasks l))
    then (if l.allow_finalize_with_blocker && is_some l.blockers then false else true)
    else is_empty (done_subtasks l)

-- A subtask that is `done`, and one that is not terminal.
abbrev is_done : TaskSubtaskState → Bool
is_done s = same s.status done

abbrev is_open : TaskSubtaskState → Bool
is_open s = not (is_terminal s.status)

is_empty-select :
    (p : TaskSubtaskState → Bool) (xs : List TaskSubtaskState)
    → is_empty (select p xs) ≡ not (any p xs)
is_empty-select p [] = refl
is_empty-select p (x ∷ xs) = ground (arith, is_empty-select p xs)

any-false : (xs : List TaskSubtaskState) → any is_open xs ≡ not (all (λ s. is_terminal s.status) xs)
any-false [] = refl
any-false (x ∷ xs) = ground (arith, any-false xs)

-- The gate lets an answer out in two cases only: every subtask is terminal and one is `done`; or
-- some subtask is open, and the ledger both allows an end with a blocker and names the blocker.
pub ledger_has_open_work_iff :
    (l : TaskLedger)
    → (ledger_has_open_work l ≡ false) ↔ (
        ((all (λ s. is_terminal s.status) l.subtasks ≡ true) × (any is_done l.subtasks ≡ true))
        ⊎ ((any is_open l.subtasks ≡ true)
            × (l.allow_finalize_with_blocker ≡ true)
            × (is_some l.blockers ≡ true)))
unfolding ledger_has_open_work
ledger_has_open_work_iff l = ground (
  arith,
  is_empty-select is_open l.subtasks,
  is_empty-select is_done l.subtasks,
  any-false l.subtasks,
)
