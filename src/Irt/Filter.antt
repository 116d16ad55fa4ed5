-- ===== src/Irt/Filter.antt =====
-- `iter_irt_ancestors_filtered` of threlium/thread_context_filter.py: the snapshots that its loop
-- yields, over the chain from the leaf to the root.
use threlium.Prelude.{
  ℕ, ◌+◌, ◌-◌, ltb, ◌==◌, ◌≡◌, refl, Bool, true, false, ◌&&◌, List, [], ◌∷◌, arith, if◌then◌else◌,
}
use threlium.Prelude.Text.{codes, text_eq, text_key}
use threlium.Prelude.Sort.{contains}
use threlium.Stage.Address.{MailLib}
use threlium.Irt.Snapshot.{Snapshot, plain, intent, end, subagent_marker}

-- `NotmuchTag.ROUTE.value in snap.tags`
unfoldable pub has_route_tag : Snapshot → Bool
unfolding contains text_eq
has_route_tag snap = contains (codes "route") snap.tags

module _ (lib : MailLib) where
  -- The loop; the number is `skip_counter`.
  unfoldable pub filter_loop : Bool → ℕ → List Snapshot → List Snapshot
  filter_loop stop_at_route skip [] = []
  filter_loop stop_at_route skip (snap ∷ chain) =
      if stop_at_route && has_route_tag snap then [] else elim (subagent_marker lib snap) [
        | end ↦
            let rest = filter_loop stop_at_route (skip + 1) chain in
            if skip == 0 then snap ∷ rest else rest
        | intent ↦
            let rest = filter_loop stop_at_route (skip - 1) chain in
            if ltb 1 skip then rest else if skip == 1 then snap ∷ rest else snap ∷ []
        | plain ↦
            let rest = filter_loop stop_at_route skip chain in
            if skip == 0 then snap ∷ rest else rest
      ]

  -- `iter_irt_ancestors_filtered`, over the chain of `iter_in_reply_to_ancestors_from_inner_id`
  unfoldable pub iter_filtered : Bool → List Snapshot → List Snapshot
  unfolding filter_loop
  iter_filtered stop_at_route chain = filter_loop stop_at_route 0 chain

  -- The chain before the root of the current turn.
  pub before_route : List Snapshot → List Snapshot
  before_route [] = []
  before_route (snap ∷ chain) = if has_route_tag snap then [] else snap ∷ before_route chain

  loop-before_route :
      (skip : ℕ) (chain : List Snapshot)
      → filter_loop true skip chain ≡ filter_loop false skip (before_route chain)
  unfolding filter_loop before_route
  loop-before_route skip [] = refl
  loop-before_route skip (snap ∷ chain) = ground (
    arith,
    loop-before_route (skip + 1) chain,
    loop-before_route (skip - 1) chain,
    loop-before_route skip chain,
  )

  -- The barrier of the turn only cuts the chain: the walk with it is the walk without it over the
  -- part of the chain before the first snapshot that is tagged `route`.
  pub iter_filtered-before_route :
      (chain : List Snapshot) → iter_filtered true chain ≡ iter_filtered false (before_route chain)
  unfolding iter_filtered
  iter_filtered-before_route chain = loop-before_route 0 chain
