-- ===== src/Irt/Frame.antt =====
-- What the walk yields, told by the shape of the chain instead of a counter.
use mathlib.Core.List.{append_assoc}
use threlium.Prelude.{ℕ, suc, ◌-◌, ◌≡◌, refl, ap, ◌∙◌, false, List, [], ◌∷◌, ◌++◌, arith}
use native.Mathlib.Numerals.{add-one}
use threlium.Stage.Address.{MailLib}
use threlium.Irt.Snapshot.{Snapshot, plain, intent, end, subagent_marker}
use threlium.Irt.Filter.{filter_loop, iter_filtered}

-- How the walk over a chain ends: at the root of the thread, or at the task that was set to the
-- agent itself.
pub data Ending : Type 0 where
  at_root : Ending
  at_own_task : Snapshot → Ending

module _ (lib : MailLib) where
  -- A part of the chain in which every result of a subagent comes with the task that was set.
  pub data Balanced : List Snapshot → Type 0 where
    empty : Balanced []
    message :
        {s : Snapshot} {c : List Snapshot}
        → subagent_marker lib s ≡ plain
        → Balanced c
        → Balanced (s ∷ c)
    zone :
        (e i : Snapshot) (inner c : List Snapshot)
        → subagent_marker lib e ≡ end
        → Balanced inner
        → subagent_marker lib i ≡ intent
        → Balanced c
        → Balanced (e ∷ inner ++ (i ∷ c))

  -- `Frame chain seen ending`: the messages of the agent's own level are `seen`.
  pub data Frame : List Snapshot → List Snapshot → Ending → Type 0 where
    root : Frame [] [] at_root
    own_task :
        {i : Snapshot} {c : List Snapshot}
        → subagent_marker lib i ≡ intent
        → Frame (i ∷ c) (i ∷ []) (at_own_task i)
    own :
        {s : Snapshot} {c v : List Snapshot} {k : Ending}
        → subagent_marker lib s ≡ plain
        → Frame c v k
        → Frame (s ∷ c) (s ∷ v) k
    child :
        (e i : Snapshot) (inner c : List Snapshot) {v : List Snapshot} {k : Ending}
        → subagent_marker lib e ≡ end
        → Balanced inner
        → subagent_marker lib i ≡ intent
        → Frame c v k
        → Frame (e ∷ inner ++ (i ∷ c)) (e ∷ i ∷ v) k

  -- One round of the loop inside a zone, for each kind of message.
  module _ (n : ℕ) (s : Snapshot) (c : List Snapshot) where
    inside_plain :
        subagent_marker lib s ≡ plain
        → filter_loop lib false (suc n) (s ∷ c) ≡ filter_loop lib false (suc n) c
    unfolding filter_loop
    inside_plain m = ground arith

    inside_end :
        subagent_marker lib s ≡ end
        → filter_loop lib false (suc n) (s ∷ c) ≡ filter_loop lib false (suc (suc n)) c
    unfolding filter_loop
    inside_end m = rw (m, ← add-one (suc n)) (ground arith)

    inside_intent :
        subagent_marker lib s ≡ intent
        → filter_loop lib false (suc (suc n)) (s ∷ c) ≡ filter_loop lib false (suc n) c
    unfolding filter_loop
    inside_intent m = let e : suc (suc n) - 1 ≡ suc n = omega arith in rw m (rw e (ground arith))

  leave_zone :
      (s : Snapshot) (c : List Snapshot)
      → subagent_marker lib s ≡ intent
      → filter_loop lib false 1 (s ∷ c) ≡ s ∷ filter_loop lib false 0 c
  unfolding filter_loop
  leave_zone s c m = rw m

  -- A balanced part of the chain inside a zone is skipped.
  skip-Balanced :
      (inner : List Snapshot) (n : ℕ) (c : List Snapshot)
      → Balanced inner
      → filter_loop lib false (suc n) (inner ++ c) ≡ filter_loop lib false (suc n) c
  skip-Balanced _ n c empty = refl
  skip-Balanced (s ∷ d) n c (message m b) = inside_plain n s (d ++ c) m ∙ skip-Balanced d n c b
  skip-Balanced _ n c (zone e i inner d m b m' b') =
      inside_end n e ((inner ++ (i ∷ d)) ++ c) m
      ∙ ap (filter_loop lib false (suc (suc n))) (append_assoc inner (i ∷ d) c)
      ∙ skip-Balanced inner (suc n) (i ∷ (d ++ c)) b
      ∙ inside_intent n i (d ++ c) m'
      ∙ skip-Balanced d n c b'

  -- On a chain in which every result of a subagent comes with its task, the loop with its counter
  -- yields exactly the messages of the agent's own level.
  pub iter_filtered-Frame :
      {c v : List Snapshot} {k : Ending} → Frame c v k → iter_filtered lib false c ≡ v
  unfolding iter_filtered
  iter_filtered-Frame root = refl
  iter_filtered-Frame (own_task m) = rw m
  iter_filtered-Frame (own {s} m f) = rw m (ap (◌∷◌ s) (iter_filtered-Frame f))
  iter_filtered-Frame (child e i inner c m b m' f) = rw m (
      ap (◌∷◌ e)
        (skip-Balanced inner 0 (i ∷ c) b ∙ leave_zone i c m' ∙ ap (◌∷◌ i) (iter_filtered-Frame f)))
