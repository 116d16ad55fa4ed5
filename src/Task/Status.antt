-- ===== src/Task/Status.antt =====
-- `SubtaskStatus` of threlium/types/task_ledger.py: the lattice of statuses.
use threlium.Prelude.{ℕ, ◌≤◌, ◌≡◌, refl, ◌⊎◌, Bool, true, false, arith, ltb, ◌==◌, if◌then◌else◌}

pub data SubtaskStatus : Type 0 where
  pending in_progress done cancelled : SubtaskStatus

-- `_SUBTASK_STATUS_RANK`
unfoldable pub rank : SubtaskStatus → ℕ
rank pending = 0
rank in_progress = 1
rank done = 2
rank cancelled = 2

unfoldable pub is_terminal : SubtaskStatus → Bool
unfolding rank
is_terminal s = rank s == 2

-- `self is other` for members of the enumeration
unfoldable pub same : SubtaskStatus → SubtaskStatus → Bool
same pending pending = true
same in_progress in_progress = true
same done done = true
same cancelled cancelled = true
same _ _ = false

unfoldable pub merge : SubtaskStatus → SubtaskStatus → SubtaskStatus
unfolding rank same
merge self other =
    if ltb (rank other) (rank self)
    then self
    else if ltb (rank self) (rank other)
    then other
    else if same self other
    then self
    else done

pub merge_comm : (a b : SubtaskStatus) → merge a b ≡ merge b a
unfolding merge
merge_comm pending pending = refl
merge_comm _ _ = ground arith

pub merge_assoc : (a b c : SubtaskStatus) → merge (merge a b) c ≡ merge a (merge b c)
unfolding merge
merge_assoc pending pending pending = refl
merge_assoc _ _ _ = ground arith

pub merge_idem : (a : SubtaskStatus) → merge a a ≡ a
unfolding merge
merge_idem a = ground arith

pub merge-pending : (a : SubtaskStatus) → merge a pending ≡ a
unfolding merge
merge-pending a = ground arith

-- The statuses form a join semilattice: `merge` is commutative, associative and idempotent,
-- `pending` is its unit and `done` its greatest element.
pub merge_semilattice :
    (a b c : SubtaskStatus)
    → (merge a b ≡ merge b a)
      × (merge (merge a b) c ≡ merge a (merge b c))
      × (merge a a ≡ a)
      × (merge a pending ≡ a)
      × (merge a done ≡ done)
merge_semilattice a b c = (merge_comm a b, merge_assoc a b c, merge_idem a, merge-pending a, top a)
  where
    top : (a : SubtaskStatus) → merge a done ≡ done
    top a = unfold merge in ground arith

-- A merge never lowers the rank of either side, and has the rank of one of them.
pub rank-merge :
    (a b : SubtaskStatus)
    → (rank a ≤ rank (merge a b))
      × (rank b ≤ rank (merge a b))
      × ((rank (merge a b) ≡ rank a) ⊎ (rank (merge a b) ≡ rank b))
unfolding merge
rank-merge pending pending = ground arith
rank-merge _ _ = ground arith

-- A terminal status stays terminal under every merge, and `done` stays `done`.
pub is_terminal-merge :
    (a b : SubtaskStatus)
    → (is_terminal a ≡ true → is_terminal (merge a b) ≡ true) × (merge done b ≡ done)
unfolding merge is_terminal
is_terminal-merge pending pending = ground arith
is_terminal-merge _ _ = ground arith
