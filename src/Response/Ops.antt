-- ===== src/Response/Ops.antt =====
-- The operations of threlium/response/ops.py, how they are applied, and what
-- response/state_summary.py and response/reduce.py make of the chunks.
use threlium.Prelude.{
  ◌++◌, ℕ, ◌+◌, Bool, true, false, Option, none, some, List, [], ◌∷◌, length, if◌then◌else◌,
}
use threlium.Prelude.Text.{Text, strip}
use threlium.Prelude.Int.{ℤ, int_key}
use threlium.Prelude.Dict.{Dict, get, set, keys}
use threlium.Prelude.Sort.{sorted, contains}

-- `ResponseOp = AppendOp | EditOp`: a position, a content (`none` deletes) and a message id.
pub data ResponseOp : Type 0 where
  append_op : ℤ → Text → Text → ResponseOp
  edit_op : ℤ → Option Text → Text → ResponseOp

-- One turn of the loop of `apply_response_ops`.
unfoldable pub apply_response_op : Dict ℤ (Option Text) → ResponseOp → Dict ℤ (Option Text)
unfolding set contains
apply_response_op chunks (append_op position content mid) = set position (some content) chunks
apply_response_op chunks (edit_op target_position new_content mid) =
    if contains target_position (keys chunks)
    then set target_position new_content chunks
    else chunks

unfoldable pub apply_loop : Dict ℤ (Option Text) → List ResponseOp → Dict ℤ (Option Text)
unfolding apply_response_op
apply_loop chunks [] = chunks
apply_loop chunks (op ∷ ops) = apply_loop (apply_response_op chunks op) ops

unfoldable pub apply_response_ops : List ResponseOp → Dict ℤ (Option Text)
unfolding apply_loop
apply_response_ops ops = apply_loop [] ops

-- `chunks[pos]` for a position that `sorted(chunks)` gives.
unfoldable pub chunk_at : Dict ℤ (Option Text) → ℤ → Option Text
unfolding get
chunk_at chunks position = elim (get position chunks) [ none ↦ none | some content ↦ content ]

-- The loop of `reduce_ops`.
unfoldable pub live_parts : Dict ℤ (Option Text) → List ℤ → List Text
unfolding chunk_at
live_parts chunks [] = []
live_parts chunks (position ∷ positions) = elim (chunk_at chunks position) [
  | none ↦ live_parts chunks positions
  | some text ↦ text ∷ live_parts chunks positions
]

-- `reduce_ops`; `chunk_assembly` is `render_prompt(PromptPath.RESPONSE_FINALIZE_CHUNK_ASSEMBLY, …)`.
unfoldable pub reduce_ops : (List Text → Text) → List ResponseOp → Text
unfolding live_parts apply_response_ops sorted strip
reduce_ops chunk_assembly ops =
    let chunks = apply_response_ops ops in
    strip (chunk_assembly (live_parts chunks (sorted (keys chunks))))

pub record ChunkView : Type 0 where
  pub position : ℤ
  pub content : Option Text
  pub deleted : Bool

pub record StateData : Type 0 where
  pub is_empty : Bool
  pub live_count : ℕ
  pub total_chars : ℕ
  pub chunks : List ChunkView

-- One turn of the loop of `build_state_data`.
unfoldable pub add_view : StateData → ℤ → Option Text → StateData
add_view state position none = record state {
  chunks = state.chunks ++ record { position = position; content = none; deleted = true } ∷ [];
}
add_view state position (some text) = record state {
  live_count = state.live_count + 1;
  total_chars = state.total_chars + length text;
  chunks =
      state.chunks ++ record { position = position; content = some text; deleted = false } ∷ [];
}

unfoldable pub view_loop : Dict ℤ (Option Text) → StateData → List ℤ → StateData
unfolding add_view chunk_at
view_loop raw state [] = state
view_loop raw state (position ∷ positions) =
    view_loop raw (add_view state position (chunk_at raw position)) positions

-- `build_state_data`
unfoldable pub build_state_data : List ResponseOp → StateData
unfolding view_loop apply_response_ops sorted
build_state_data ops = elim (apply_response_ops ops) [
  | [] ↦ record { is_empty = true; live_count = 0; total_chars = 0; chunks = [] }
  | c ∷ raw ↦
      view_loop (c ∷ raw)
        (record { is_empty = false; live_count = 0; total_chars = 0; chunks = [] })
        (sorted (keys (c ∷ raw)))
]
