-- ===== src/Response/Edit.antt =====
-- `main` of threlium/states/response_edit.py: an edit is let through where it has a chunk to edit.
use threlium.Prelude.{
  ℕ, zero, suc, ◌≤◌, ◌<◌, true, ◌≡◌, refl, sym, ap, ◌∙◌, Option, none, some, List, [], ◌∷◌, ◌++◌,
  arith, length, get_elem?, replace_at, if◌then◌else◌, Result, ok, ◌>>=◌, >>=-eq-ok, Bool-cases,
  Option-cases, inl, inr,
}
use threlium.Prelude.Text.{Text, strip}
use threlium.Prelude.Wire.{parse}
use threlium.Prelude.Int.{ℤ, pos, int_key, int_eq, int_eq_iff}
use threlium.Prelude.Sort.{sorted, contains}
use threlium.Stage.Address.{MailLib}
use threlium.Irt.Snapshot.{Snapshot}
use threlium.Response.Ops.{ResponseOp, append_op, edit_op, StateData, build_state_data}
use threlium.Response.Collect.{ResponseEditStagePayload, ResponseLib, relevant_snaps, collect_ops}
use threlium.Response.Buffer.{
  length-snoc, array_loop, edit_array, array_of, IsNumbered, length-edit_array, ops_loop-IsNumbered,
}

-- `{op.position for op in ops if isinstance(op, AppendOp)}`, with repetition.
unfoldable pub valid_positions : List ResponseOp → List ℤ
valid_positions [] = []
valid_positions (append_op position content mid ∷ ops) = position ∷ valid_positions ops
valid_positions (edit_op target content mid ∷ ops) = valid_positions ops

-- What the stage emits. A refused edit goes back as a notice with the echo of its body, a refused
-- position also with the valid positions and the state of the buffer.
pub data EditOutcome : Type 0 where
  invalid_body : Text → EditOutcome
  invalid_position : Text → ℤ → Option Text → List ℤ → StateData → EditOutcome
  preserving : EditOutcome

module _ (mail : MailLib) (lib : ResponseLib) where
  open lib use {parse_response_edit_stage_payload}

  -- `main`, on the text of the `<system>` part and the chain of the letter.
  unfoldable pub response_edit_main : Text → List Snapshot → Result EditOutcome
  unfolding valid_positions collect_ops build_state_data sorted contains strip parse
  response_edit_main system_text chain =
      let body_raw = strip system_text in
      elim (parse_response_edit_stage_payload body_raw) [
        | none ↦ ok (invalid_body (parse (some body_raw)))
        | some payload ↦ collect_ops mail lib chain >>= λ ops.
            (if contains payload.position (valid_positions ops)
              then ok preserving
              else ok (
                  invalid_position (parse (some body_raw)) payload.position payload.new_content
                    (sorted (valid_positions ops)) (build_state_data ops)))
      ]

length-array_loop :
    (ops : List ResponseOp) (chunks : List (Option Text))
    → length chunks ≤ length (array_loop chunks ops)
unfolding array_loop
length-array_loop [] chunks = omega arith
length-array_loop (append_op q content mid ∷ ops) chunks =
    omega (
      arith,
      length-snoc (some content) chunks,
      length-array_loop ops (chunks ++ some content ∷ []),
    )
length-array_loop (edit_op target content mid ∷ ops) chunks = omega (
  arith,
  length-edit_array target content chunks,
  length-array_loop ops (edit_array target content chunks),
)

is_index :
    (n : ℕ) (ops : List ResponseOp) (chunks : List (Option Text)) (p : ℤ)
    → IsNumbered n ops
    → length chunks ≡ n
    → contains p (valid_positions ops) ≡ true
    → (k : ℕ) × (p ≡ pos k) × (k < length (array_loop chunks ops))
unfolding IsNumbered valid_positions contains array_loop
is_index n [] chunks p h l c = cc
is_index n (append_op q content mid ∷ ops) chunks p h l c = elim (Bool-cases (int_eq q p)) [
  | inl t ↦ (
    n,
    sym ((int_eq_iff q p).0 t) ∙ h.0,
    omega (
      arith,
      l,
      length-snoc (some content) chunks,
      length-array_loop ops (chunks ++ some content ∷ []),
    ),
  )
  | inr f ↦
      is_index (suc n) ops (chunks ++ some content ∷ []) p h.1
        (length-snoc (some content) chunks ∙ ap suc l) (rw f at c)
]
is_index n (edit_op target content mid ∷ ops) chunks p h l c =
    is_index n ops (edit_array target content chunks) p h
      (length-edit_array target content chunks ∙ l) c

get-replaced :
    (k : ℕ) (c : Option Text) (chunks : List (Option Text))
    → k < length chunks
    → get_elem? (replace_at chunks k c) k ≡ some c
get-replaced k c [] h = ground (arith, h)
get-replaced zero c (d ∷ chunks) h = refl
get-replaced (suc k) c (d ∷ chunks) h = get-replaced k c chunks (omega (arith, h))

array_loop-snoc :
    (ops : List ResponseOp) (target : ℤ) (c : Option Text) (mid : Text)
    (chunks : List (Option Text))
    → array_loop chunks (ops ++ edit_op target c mid ∷ [])
      ≡ edit_array target c (array_loop chunks ops)
unfolding array_loop
array_loop-snoc [] target c mid chunks = refl
array_loop-snoc (append_op q content m ∷ ops) target c mid chunks =
    array_loop-snoc ops target c mid (chunks ++ some content ∷ [])
array_loop-snoc (edit_op p content m ∷ ops) target c mid chunks =
    array_loop-snoc ops target c mid (edit_array p content chunks)

-- An edit that `response_edit` lets through takes effect. Where `main` answers `preserving`, the
-- body decodes to an edit, its position is the index of a chunk of the buffer that the letters of
-- the turn have built, deleted chunks included, and in the array of those letters followed by the
-- edit that chunk is the new content.
pub response_edit_main-preserving :
    (mail : MailLib) (lib : ResponseLib) (system_text : Text) (chain : List Snapshot) (mid : Text)
    → response_edit_main mail lib system_text chain ≡ ok preserving
    → (payload : ResponseEditStagePayload) × (ops : List ResponseOp) × (k : ℕ)
      × (lib.parse_response_edit_stage_payload (strip system_text) ≡ some payload)
      × (collect_ops mail lib chain ≡ ok ops)
      × (payload.position ≡ pos k)
      × (k < length (array_of ops))
      × (get_elem? (array_of (ops ++ edit_op payload.position payload.new_content mid ∷ [])) k
          ≡ some payload.new_content)
unfolding response_edit_main collect_ops array_of edit_array
response_edit_main-preserving mail lib system_text chain mid h =
    elim (Option-cases (lib.parse_response_edit_stage_payload (strip system_text))) [
      | inl e ↦ let refused = rw (response_edit_main, e) at h in cc
      | inr (payload, e) ↦
          let (ops, f, g) =
            >>=-eq-ok (collect_ops mail lib chain) _ (rw (response_edit_main, e) at h) in
          elim (Bool-cases (contains payload.position (valid_positions ops))) [
            | inr n ↦ let refused = rw n at g in cc
            | inl y ↦
                let (k, is, small) =
                  is_index 0 ops [] payload.position
                    (ops_loop-IsNumbered mail lib 0 (relevant_snaps mail lib chain) f) refl y in
                (
                  payload,
                  ops,
                  k,
                  e,
                  f,
                  is,
                  small,
                  ap (λ cs. get_elem? cs k)
                        (array_loop-snoc ops payload.position payload.new_content mid []
                          ∙ ap (λ z. edit_array z payload.new_content (array_of ops)) is)
                      ∙ get-replaced k payload.new_content (array_of ops) small,
                )
          ]
    ]
