-- ===== src/Irt/Depth.antt =====
-- threlium/irt_subagent_classifier.py: the depth of a message below unfinished subagents, and the
-- hop budget from before the task that was set to the agent.
use mathlib.Core.List.{append_assoc}
use threlium.Prelude.{
  ℕ, suc, ◌≡◌, refl, ap, ◌∙◌, Option, none, some, List, [], ◌∷◌, ◌++◌, if◌then◌else◌, Result, ok,
  raise, runtime_error, ◌>>=◌,
}
use threlium.Prelude.Int.{ℤ, pos, negsuc, add_one, sub_one, is_positive, int_eq}
use threlium.Prelude.Text.{Text}
use threlium.Prelude.Wire.{parse}
use threlium.Stage.Address.{MailLib}
use threlium.Irt.Snapshot.{
  Snapshot, IrtSubagentMarker, plain, intent, end, subagent_marker, in_reply_to_inner,
}
use threlium.Irt.Frame.{
  Balanced, empty, message, zone, Frame, root, own_task, own, child, Ending, at_root, at_own_task,
}

-- `depth` after a marker.
abbrev pub moved : IrtSubagentMarker → ℤ → ℤ
moved end depth = sub_one depth
moved intent depth = add_one depth
moved plain depth = depth

-- `subagent_intent` without a message before it is an error.
abbrev pub parent_or_raise : Option Text → Result Text
parent_or_raise none = raise runtime_error
parent_or_raise (some parent) = ok parent

module _ (lib : MailLib) where
  -- The loop of `classify_subagent_depth_from_inner`.
  unfoldable pub classify_loop : ℤ → List Snapshot → ℤ
  classify_loop depth [] = depth
  classify_loop depth (snap ∷ chain) =
      let depth' = moved (subagent_marker lib snap) depth in
      let rest = classify_loop depth' chain in if is_positive depth' then depth' else rest

  -- `classify_subagent_depth_from_inner`, over the chain
  unfoldable pub classify_subagent_depth : List Snapshot → ℤ
  unfolding classify_loop
  classify_subagent_depth chain = classify_loop (pos 0) chain

  -- The loop of `find_matching_subagent_intent_ancestor`: the id of the message before the task.
  unfoldable pub find_loop : ℤ → List Snapshot → Result Text
  unfolding int_eq in_reply_to_inner
  find_loop depth [] = raise runtime_error
  find_loop depth (snap ∷ chain) = elim (subagent_marker lib snap) [
    | end ↦ find_loop (sub_one depth) chain
    | plain ↦ find_loop depth chain
    | intent ↦
        let rest = find_loop (add_one depth) chain in
        if int_eq (add_one depth) (pos 1)
        then (elim (in_reply_to_inner snap) [
          | none ↦ raise runtime_error
          | some parent ↦ ok parent
        ])
        else rest
  ]

  unfoldable pub find_matching_parent : List Snapshot → Result Text
  unfolding find_loop
  find_matching_parent chain = find_loop (pos 0) chain

  -- `_parent_hop_headers`. `hop_of` is the index: `none` where it does not have the message, and the
  -- hop header of the message where it does.
  unfoldable pub parent_hop_headers : (Text → Option (Option Text)) → Text → Result Text
  unfolding parse
  parent_hop_headers hop_of inner = elim (hop_of inner) [
    | none ↦ raise runtime_error
    | some header ↦ ok (parse header)
  ]

  unfoldable pub find_matching_subagent_intent_ancestor :
      (Text → Option (Option Text)) → List Snapshot → Result Text
  unfolding find_matching_parent parent_hop_headers
  find_matching_subagent_intent_ancestor hop_of chain =
      find_matching_parent chain >>= λ inner. parent_hop_headers hop_of inner

  -- The depths in a zone are those of `-(n + 1)`.
  module _ (n : ℕ) (s : Snapshot) (c : List Snapshot) where
    deep_plain :
        subagent_marker lib s ≡ plain
        → classify_loop (negsuc n) (s ∷ c) ≡ classify_loop (negsuc n) c
    unfolding classify_loop
    deep_plain m = rw m

    deep_end :
        subagent_marker lib s ≡ end
        → classify_loop (negsuc n) (s ∷ c) ≡ classify_loop (negsuc (suc n)) c
    unfolding classify_loop
    deep_end m = rw m

    deep_intent :
        subagent_marker lib s ≡ intent
        → classify_loop (negsuc (suc n)) (s ∷ c) ≡ classify_loop (negsuc n) c
    unfolding classify_loop
    deep_intent m = rw m

  leave_depth :
      (s : Snapshot) (c : List Snapshot)
      → subagent_marker lib s ≡ intent
      → classify_loop (negsuc 0) (s ∷ c) ≡ classify_loop (pos 0) c
  unfolding classify_loop
  leave_depth s c m = rw m

  depth-Balanced :
      (inner : List Snapshot) (n : ℕ) (c : List Snapshot)
      → Balanced lib inner
      → classify_loop (negsuc n) (inner ++ c) ≡ classify_loop (negsuc n) c
  depth-Balanced _ n c empty = refl
  depth-Balanced (s ∷ d) n c (message m b) = deep_plain n s (d ++ c) m ∙ depth-Balanced d n c b
  depth-Balanced _ n c (zone e i inner d m b m' b') =
      deep_end n e ((inner ++ (i ∷ d)) ++ c) m
      ∙ ap (classify_loop (negsuc (suc n))) (append_assoc inner (i ∷ d) c)
      ∙ depth-Balanced inner (suc n) (i ∷ (d ++ c)) b
      ∙ deep_intent n i (d ++ c) m'
      ∙ depth-Balanced d n c b'

  abbrev depth_of : Ending → ℤ
  depth_of at_root = pos 0
  depth_of (at_own_task i) = pos 1

  -- The depth is 1 exactly where the walk of the frame ends at the agent's own task, and 0 where it
  -- ends at the root of the thread.
  pub classify-Frame :
      {c v : List Snapshot} {k : Ending} → Frame lib c v k → classify_subagent_depth c ≡ depth_of k
  unfolding classify_subagent_depth
  classify-Frame root = refl
  classify-Frame (own_task m) = rw m
  classify-Frame (own {s} m f) = rw m (classify-Frame f)
  classify-Frame (child e i inner c m b m' f) =
      rw m (depth-Balanced inner 0 (i ∷ c) b ∙ leave_depth i c m' ∙ classify-Frame f)

  module _ (n : ℕ) (s : Snapshot) (c : List Snapshot) where
    find_plain :
        subagent_marker lib s ≡ plain → find_loop (negsuc n) (s ∷ c) ≡ find_loop (negsuc n) c
    unfolding find_loop
    find_plain m = rw (m, find_loop)

    find_end :
        subagent_marker lib s ≡ end → find_loop (negsuc n) (s ∷ c) ≡ find_loop (negsuc (suc n)) c
    unfolding find_loop
    find_end m = rw (m, find_loop)

    find_intent :
        subagent_marker lib s ≡ intent → find_loop (negsuc (suc n)) (s ∷ c) ≡ find_loop (negsuc n) c
    unfolding find_loop
    find_intent m = rw (m, find_loop)

  find_leave :
      (s : Snapshot) (c : List Snapshot)
      → subagent_marker lib s ≡ intent
      → find_loop (negsuc 0) (s ∷ c) ≡ find_loop (pos 0) c
  unfolding find_loop
  find_leave s c m = rw (m, find_loop)

  find-Balanced :
      (inner : List Snapshot) (n : ℕ) (c : List Snapshot)
      → Balanced lib inner
      → find_loop (negsuc n) (inner ++ c) ≡ find_loop (negsuc n) c
  find-Balanced _ n c empty = refl
  find-Balanced (s ∷ d) n c (message m b) = find_plain n s (d ++ c) m ∙ find-Balanced d n c b
  find-Balanced _ n c (zone e i inner d m b m' b') =
      find_end n e ((inner ++ (i ∷ d)) ++ c) m
      ∙ ap (find_loop (negsuc (suc n))) (append_assoc inner (i ∷ d) c)
      ∙ find-Balanced inner (suc n) (i ∷ (d ++ c)) b
      ∙ find_intent n i (d ++ c) m'
      ∙ find-Balanced d n c b'

  abbrev parent_of : Ending → Result Text
  parent_of at_root = raise runtime_error
  parent_of (at_own_task i) = parent_or_raise (in_reply_to_inner i)

  parent-Frame :
      {c v : List Snapshot} {k : Ending} → Frame lib c v k → find_matching_parent c ≡ parent_of k
  unfolding find_matching_parent
  parent-Frame root = refl
  parent-Frame (own_task m) = rw (m, find_loop)
  parent-Frame (own {s} m f) = rw (m, find_loop) (parent-Frame f)
  parent-Frame (child e i inner c m b m' f) =
      rw (m, find_loop) (find-Balanced inner 0 (i ∷ c) b ∙ find_leave i c m' ∙ parent-Frame f)

  -- The search for the task of the agent finds the one that ends the frame, and gives the hop line of
  -- the message that this task replies to; it raises where the frame ends at the root of the thread,
  -- where the task replies to none, and where the index does not have that message.
  pub find-Frame :
      {c v : List Snapshot} {k : Ending} (hop_of : Text → Option (Option Text))
      → Frame lib c v k
      → find_matching_subagent_intent_ancestor hop_of c
        ≡ (parent_of k >>= λ inner. parent_hop_headers hop_of inner)
  unfolding find_matching_subagent_intent_ancestor
  find-Frame hop_of f = ap (λ r. r >>= λ inner. parent_hop_headers hop_of inner) (parent-Frame f)
