-- ===== src/Response/Counts.antt =====
-- `build_state_data` of threlium/response/state_summary.py: what its counts count.
use threlium.Prelude.{
  ℕ, suc, ◌+◌, ◌<◌, true, false, ◌≡◌, refl, ◌∙◌, Option, none, some, List, [], ◌∷◌, ◌++◌, arith,
  length, get_elem?, is_empty, ok,
}
use mathlib.Core.List.{append_assoc, append-nil}
use threlium.Prelude.Text.{Text}
use threlium.Prelude.Int.{ℤ, pos, int_key}
use threlium.Prelude.Dict.{Dict, get, keys}
use threlium.Stage.Address.{MailLib}
use threlium.Irt.Snapshot.{Snapshot}
use threlium.Response.Ops.{
  ResponseOp, ChunkView, StateData, apply_response_ops, chunk_at, add_view, view_loop,
  build_state_data,
}
use threlium.Response.Collect.{ResponseLib, collect_ops}
use threlium.Response.Buffer.{
  shift, array_of, live, numbered, apply_response_ops-array, sorted-numbered, get-numbered,
}

-- The characters of the texts.
unfoldable pub chars : List Text → ℕ
chars [] = 0
chars (text ∷ texts) = length text + chars texts

-- A view for each chunk, its position counted from `i`.
unfoldable pub views : ℕ → List (Option Text) → List ChunkView
views i [] = []
views i (none ∷ chunks) =
    record { position = pos i; content = none; deleted = true } ∷ views (suc i) chunks
views i (some text ∷ chunks) =
    record { position = pos i; content = some text; deleted = false } ∷ views (suc i) chunks

unfoldable pub add_array : StateData → ℕ → List (Option Text) → StateData
unfolding live chars views
add_array state i chunks = record {
  is_empty = state.is_empty;
  live_count = state.live_count + length (live chunks);
  total_chars = state.total_chars + chars (live chunks);
  chunks = state.chunks ++ views i chunks;
}

chunk_here :
    (raw : Dict ℤ (Option Text)) (i : ℕ) (c : Option Text)
    → get (pos (i + 0)) raw ≡ some c
    → chunk_at raw (pos i) ≡ c
unfolding chunk_at
chunk_here raw i c h =
    let same : i + 0 ≡ i = omega arith in let h2 = rw same at h in rw (chunk_at, h2) refl

add_view-array :
    (state : StateData) (i : ℕ) (c : Option Text) (chunks : List (Option Text))
    → add_array (add_view state (pos i) c) (suc i) chunks ≡ add_array state i (c ∷ chunks)
unfolding add_view add_array live chars views
add_view-array state i none chunks = ground (
  arith,
  append_assoc state.chunks (record { position = pos i; content = none; deleted = true } ∷ [])
      (views (suc i) chunks),
)
add_view-array state i (some text) chunks = ground (
  arith,
  append_assoc state.chunks (record { position = pos i; content = some text; deleted = false } ∷ [])
      (views (suc i) chunks),
)

view_loop-numbered :
    (raw : Dict ℤ (Option Text)) (state : StateData) (i : ℕ) (chunks : List (Option Text))
    → ((k : ℕ) → k < length chunks → get (pos (i + k)) raw ≡ get_elem? chunks k)
    → view_loop raw state (keys (numbered i chunks)) ≡ add_array state i chunks
unfolding view_loop numbered add_array live chars views
view_loop-numbered raw state i [] h = ground (arith, append-nil state.chunks)
view_loop-numbered raw state i (c ∷ chunks) h =
    rw (view_loop, chunk_here raw i c (h 0 (omega arith)))
      (view_loop-numbered raw (add_view state (pos i) c) (suc i) chunks
          (λ k m. rw (shift i k) at (h (suc k) (omega (arith, m))))
        ∙ add_view-array state i c chunks)

abbrev nothing_yet : StateData
nothing_yet = record { is_empty = false; live_count = 0; total_chars = 0; chunks = [] }

add_array-nothing :
    (chunks : List (Option Text))
    → add_array nothing_yet 0 chunks ≡ record {
      is_empty = false;
      live_count = length (live chunks);
      total_chars = chars (live chunks);
      chunks = views 0 chunks;
    }
unfolding add_array
add_array-nothing chunks = ground arith

-- `build_state_data` on what `collect_ops` gives: the buffer is empty where it has no chunk, deleted
-- ones included; `live_count` and `total_chars` are the number and the characters of the chunks that
-- are not deleted; and there is a view for each chunk, in order.
pub build_state_data-array :
    (mail : MailLib) (lib : ResponseLib) (chain : List Snapshot) (ops : List ResponseOp)
    → collect_ops mail lib chain ≡ ok ops
    → build_state_data ops ≡ record {
      is_empty = is_empty (array_of ops);
      live_count = length (live (array_of ops));
      total_chars = chars (live (array_of ops));
      chunks = views 0 (array_of ops);
    }
unfolding build_state_data numbered views live chars add_array
build_state_data-array mail lib chain ops h =
    go (array_of ops) (apply_response_ops-array mail lib chain ops h)
  where
    go :
        (chunks : List (Option Text))
        → apply_response_ops ops ≡ numbered 0 chunks
        → build_state_data ops ≡ record {
          is_empty = is_empty chunks;
          live_count = length (live chunks);
          total_chars = chars (live chunks);
          chunks = views 0 chunks;
        }
    go [] e = rw (build_state_data, e) refl
    go (c ∷ chunks) e =
        rw (build_state_data, e, sorted-numbered 0 (c ∷ chunks))
          (view_loop-numbered (numbered 0 (c ∷ chunks)) nothing_yet 0 (c ∷ chunks)
              (λ k m. get-numbered 0 k (c ∷ chunks))
            ∙ add_array-nothing (c ∷ chunks))
