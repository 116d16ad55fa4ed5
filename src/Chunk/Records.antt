-- ===== src/Chunk/Records.antt =====
-- The records that a document is cut into are those of windows that cover its parts, numbered from 0.
use threlium.Prelude.{
  ℕ, zero, suc, ◌+◌, ◌≤◌, ◌≡◌, refl, sym, ap, ◌∙◌, Option, none, some, List, [], ◌∷◌, ◌++◌, map,
  length, get_elem?, arith, All, some-injective,
}
use threlium.Prelude.Text.{Text}
use threlium.Chunk.Windows.{
  LightragChunkRecord, ChunkLib, windows, record_of, order_loop, body_tokens_of, parts_loop,
}
use threlium.Chunk.Cover.{IsCover}

-- The tokens of a part with its windows.
abbrev pub Group : Type 0
Group = List ℕ × List (List ℕ)

abbrev pub all_windows : List Group → List (List ℕ)
all_windows [] = []
all_windows ((tokens, ws) ∷ groups) = ws ++ all_windows groups

module _ (lib : ChunkLib) where
  -- The tokens of the parts that are not passed over.
  abbrev pub part_tokens : List Text → List (List ℕ)
  part_tokens [] = []
  part_tokens (part ∷ parts) = elim (body_tokens_of lib part) [
    | none ↦ part_tokens parts
    | some tokens ↦ tokens ∷ part_tokens parts
  ]

  -- The records of a document are those of windows that cover its parts, in order.
  pub record IsChunked (body_max overlap : ℕ) (parts : List Text)
      (results : List LightragChunkRecord) : Type 0 where
    pub prefix : Text × Text
    pub overhead : ℕ
    pub groups : List Group
    pub of_parts : map (λ g. g.0) groups ≡ part_tokens parts
    pub covers : All (λ g. IsCover body_max overlap g.0 g.1) groups
    pub records : results ≡ order_loop lib prefix overhead 0 (all_windows groups)
    pub numbered :
        (i : ℕ) {r : LightragChunkRecord}
        → get_elem? results i ≡ some r
        → (r.chunk_order_index ≡ i) × (r.tokens ≤ overhead + body_max)

  module _ (prefix : Text × Text) (overhead : ℕ) where
    order_loop-append :
        (k : ℕ) (a b : List (List ℕ))
        → order_loop lib prefix overhead k (a ++ b)
          ≡ order_loop lib prefix overhead k a ++ order_loop lib prefix overhead (k + length a) b
    unfolding order_loop
    order_loop-append k [] b = ap (λ n. order_loop lib prefix overhead n b) (omega arith)
    order_loop-append k (w ∷ a) b = ap (◌∷◌ (record_of lib prefix overhead k w)) (
        order_loop-append (k + 1) a b
        ∙ ap (λ n. order_loop lib prefix overhead (k + 1) a ++ order_loop lib prefix overhead n b)
            (omega arith))

    pub order_loop-numbered :
        (body_max k : ℕ) (ws : List (List ℕ))
        → All (λ w. length w ≤ body_max) ws
        → (i : ℕ) {r : LightragChunkRecord}
        → get_elem? (order_loop lib prefix overhead k ws) i ≡ some r
        → (r.chunk_order_index ≡ k + i) × (r.tokens ≤ overhead + body_max)
    unfolding order_loop record_of
    order_loop-numbered body_max k [] h i e = cc
    order_loop-numbered body_max k (w ∷ ws) h zero e =
        let fit : length w ≤ body_max = h.0 in rw (← some-injective e) (omega arith, omega arith)
    order_loop-numbered body_max k (w ∷ ws) h (suc i) e =
        let (index, size) = order_loop-numbered body_max (k + 1) ws h.1 i e in
        (index ∙ omega arith, size)

  module _ (body_max step : ℕ) where
    abbrev pub groups_of : List Text → List Group
    groups_of [] = []
    groups_of (part ∷ parts) = elim (body_tokens_of lib part) [
      | none ↦ groups_of parts
      | some tokens ↦ (tokens, windows body_max step tokens) ∷ groups_of parts
    ]

    pub groups_of-tokens :
        (parts : List Text) → map (λ g. g.0) (groups_of parts) ≡ part_tokens parts
    groups_of-tokens [] = refl
    groups_of-tokens (part ∷ parts) = by_tokens (body_tokens_of lib part) (groups_of-tokens parts)
      where
        by_tokens :
            (found : Option (List ℕ))
            → map (λ g. g.0) (groups_of parts) ≡ part_tokens parts
            → map
                (λ g. g.0)
                (elim found as (λ _. List Group) [
                  | none ↦ groups_of parts
                  | some tokens ↦ (tokens, windows body_max step tokens) ∷ groups_of parts
                ])
              ≡ elim found as (λ _. List (List ℕ)) [
                | none ↦ part_tokens parts
                | some tokens ↦ tokens ∷ part_tokens parts
              ]
        by_tokens none rest = rest
        by_tokens (some tokens) rest = ap (◌∷◌ tokens) rest

    pub groups_of-All :
        (P : Group → Type 0)
        → ((tokens : List ℕ) → P (tokens, windows body_max step tokens))
        → (parts : List Text) → All P (groups_of parts)
    groups_of-All P every [] = tt
    groups_of-All P every (part ∷ parts) =
        by_tokens (body_tokens_of lib part) (groups_of-All P every parts)
      where
        by_tokens :
            (found : Option (List ℕ))
            → All P (groups_of parts)
            → All P (elim found as (λ _. List Group) [
              | none ↦ groups_of parts
              | some tokens ↦ (tokens, windows body_max step tokens) ∷ groups_of parts
            ])
        by_tokens none rest = rest
        by_tokens (some tokens) rest = (every tokens, rest)

    -- The loop over the parts is the loop over all of their windows.
    pub parts_loop-groups_of :
        (prefix : Text × Text) (overhead k : ℕ) (parts : List Text)
        → parts_loop lib prefix overhead body_max step k parts
          ≡ order_loop lib prefix overhead k (all_windows (groups_of parts))
    unfolding parts_loop order_loop
    parts_loop-groups_of prefix overhead k [] = refl
    parts_loop-groups_of prefix overhead k (part ∷ parts) =
        by_tokens (body_tokens_of lib part) (λ n. parts_loop-groups_of prefix overhead n parts)
      where
        by_tokens :
            (found : Option (List ℕ))
            → ((n : ℕ)
                → parts_loop lib prefix overhead body_max step n parts
                  ≡ order_loop lib prefix overhead n (all_windows (groups_of parts)))
            → (elim found as (λ _. List LightragChunkRecord) [
              | none ↦ parts_loop lib prefix overhead body_max step k parts
              | some tokens ↦
                  order_loop lib prefix overhead k (windows body_max step tokens)
                  ++ parts_loop lib prefix overhead body_max step
                      (k + length (windows body_max step tokens))
                      parts
            ])
              ≡ order_loop lib prefix overhead k (
                  all_windows (elim found as (λ _. List Group) [
                    | none ↦ groups_of parts
                    | some tokens ↦ (tokens, windows body_max step tokens) ∷ groups_of parts
                  ]))
        by_tokens none rest = rest k
        by_tokens (some tokens) rest =
            let ws = windows body_max step tokens in
            ap (order_loop lib prefix overhead k ws ++◌) (rest (k + length ws))
            ∙ sym (order_loop-append prefix overhead k ws (all_windows (groups_of parts)))
