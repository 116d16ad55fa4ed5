-- ===== src/Response/Buffer.antt =====
-- The buffer that `collect_ops` and `apply_response_ops` build is an array: positions count the
-- chunks from 0, and an edit replaces an element that is there.
use threlium.Prelude.{
  ◌∙◌, ◌<◌, get_elem?, length-append, ap, replace_at, ℕ, zero, suc, ◌+◌, false, ◌≡◌, refl, Option,
  none, some, List, [], ◌∷◌, ◌++◌, arith, length, if◌then◌else◌,
}
use threlium.Prelude.Text.{Text}
use threlium.Prelude.Int.{int_le, ℤ, pos, negsuc, int_key, int_eq}
use threlium.Prelude.Dict.{get, Dict, set, keys}
use threlium.Prelude.Sort.{insert, sorted, contains}
use threlium.Prelude.{ok, >>=-eq-ok, ok-injective, Bool-cases, inl, inr, is_empty}
use threlium.Prelude.Text.{strip}
use threlium.Stage.Address.{MailLib}
use threlium.Irt.Snapshot.{Snapshot}
use threlium.Response.Collect.{
  relevant_snaps, ResponseLib, is_append_stage, is_edit_stage, read_append_content, parse_edit_body,
  ops_loop, collect_ops,
}
use threlium.Response.Ops.{
  apply_response_ops, reduce_ops, chunk_at, apply_loop, live_parts, apply_response_op, ResponseOp,
  append_op, edit_op,
}

-- The array of the chunks, `none` for one that is deleted.
unfoldable pub edit_array : ℤ → Option Text → List (Option Text) → List (Option Text)
edit_array (pos k) content chunks = replace_at chunks k content
edit_array (negsuc k) content chunks = chunks

unfoldable pub array_loop : List (Option Text) → List ResponseOp → List (Option Text)
unfolding edit_array
array_loop chunks [] = chunks
array_loop chunks (append_op position content mid ∷ ops) =
    array_loop (chunks ++ some content ∷ []) ops
array_loop chunks (edit_op target content mid ∷ ops) =
    array_loop (edit_array target content chunks) ops

unfoldable pub array_of : List ResponseOp → List (Option Text)
unfolding array_loop
array_of ops = array_loop [] ops

-- The chunks that are not deleted.
unfoldable pub live : List (Option Text) → List Text
live [] = []
live (none ∷ chunks) = live chunks
live (some text ∷ chunks) = text ∷ live chunks

-- An array as a dictionary whose keys count from `i`.
unfoldable pub numbered : ℕ → List (Option Text) → Dict ℤ (Option Text)
numbered i [] = []
numbered i (c ∷ chunks) = (pos i, c) ∷ numbered (suc i) chunks

-- The appended chunks have the positions from `n` on.
unfoldable pub IsNumbered : ℕ → List ResponseOp → Type 0
IsNumbered n [] = Unit
IsNumbered n (append_op position content mid ∷ ops) = (position ≡ pos n) × IsNumbered (suc n) ops
IsNumbered n (edit_op target content mid ∷ ops) = IsNumbered n ops

below :
    (i k : ℕ) (chunks : List (Option Text))
    → contains (pos i) (keys (numbered (suc (i + k)) chunks)) ≡ false
unfolding contains numbered int_eq
below i k [] = refl
below i k (c ∷ chunks) =
    let rest : contains (pos i) (keys (numbered (suc (i + suc k)) chunks)) ≡ false =
      below i (suc k) chunks in
    ground (arith, rest)

-- A new chunk goes to the end.
pub set-numbered :
    (i : ℕ) (c : Option Text) (chunks : List (Option Text))
    → set (pos (i + length chunks)) c (numbered i chunks) ≡ numbered i (chunks ++ c ∷ [])
unfolding set numbered int_eq
set-numbered i c [] = ground arith
set-numbered i c (d ∷ chunks) = ground (arith, set-numbered (suc i) c chunks)

-- An edit of a chunk that is there replaces it, and another one does nothing.
edit-numbered :
    (i k : ℕ) (c : Option Text) (chunks : List (Option Text))
    → (if contains (pos (i + k)) (keys (numbered i chunks))
        then set (pos (i + k)) c (numbered i chunks)
        else numbered i chunks)
      ≡ numbered i (replace_at chunks k c)
unfolding contains set numbered int_eq
edit-numbered i k c [] = refl
edit-numbered i zero c (d ∷ chunks) = ground arith
edit-numbered i (suc k) c (d ∷ chunks) = ground (arith, edit-numbered (suc i) k c chunks)

zero_plus : (k : ℕ) → 0 + k ≡ k
zero_plus k = omega arith

pub length-snoc :
    (c : Option Text) (chunks : List (Option Text))
    → length (chunks ++ c ∷ []) ≡ suc (length chunks)
length-snoc c chunks = omega (arith, length-append chunks (c ∷ []))

edit_array-numbered :
    (target : ℤ) (c : Option Text) (mid : Text) (chunks : List (Option Text))
    → apply_response_op (numbered 0 chunks) (edit_op target c mid)
      ≡ numbered 0 (edit_array target c chunks)
unfolding apply_response_op edit_array contains numbered int_eq
edit_array-numbered (pos k) c mid chunks = rw (zero_plus k) at (edit-numbered 0 k c chunks)
edit_array-numbered (negsuc k) c mid chunks = ground (arith, no_negative k 0 chunks)
  where
    no_negative :
        (j i : ℕ) (chunks : List (Option Text))
        → contains (negsuc j) (keys (numbered i chunks)) ≡ false
    no_negative j i [] = refl
    no_negative j i (d ∷ chunks) = ground (arith, no_negative j (suc i) chunks)

pub length-edit_array :
    (target : ℤ) (c : Option Text) (chunks : List (Option Text))
    → length (edit_array target c chunks) ≡ length chunks
unfolding edit_array
length-edit_array (negsuc k) c chunks = refl
length-edit_array (pos k) c chunks = go k chunks
  where
    go : (k : ℕ) (chunks : List (Option Text)) → length (replace_at chunks k c) ≡ length chunks
    go k [] = refl
    go zero (d ∷ chunks) = refl
    go (suc k) (d ∷ chunks) = ap suc (go k chunks)

apply_loop-numbered :
    (chunks : List (Option Text)) (ops : List ResponseOp)
    → IsNumbered (length chunks) ops
    → apply_loop (numbered 0 chunks) ops ≡ numbered 0 (array_loop chunks ops)
unfolding apply_loop array_loop IsNumbered apply_response_op
apply_loop-numbered chunks [] h = refl
apply_loop-numbered chunks (append_op position c mid ∷ ops) h =
    let to_end = rw (zero_plus (length chunks)) at (set-numbered 0 (some c) chunks) in
    rw (h.0, to_end)
      (apply_loop-numbered (chunks ++ some c ∷ []) ops (rw (length-snoc (some c) chunks) h.1))
apply_loop-numbered chunks (edit_op target c mid ∷ ops) h =
    ap (λ d. apply_loop d ops) (edit_array-numbered target c mid chunks)
    ∙ apply_loop-numbered (edit_array target c chunks) ops
        (rw (length-edit_array target c chunks) h)

plus_one : (n : ℕ) → n + 1 ≡ suc n
plus_one n = omega arith

-- What `collect_ops` gives is numbered.
pub ops_loop-IsNumbered :
    (mail : MailLib) (lib : ResponseLib) (n : ℕ) (relevant : List Snapshot) {ops : List ResponseOp}
    → ops_loop mail lib n relevant ≡ ok ops
    → IsNumbered n ops
unfolding ops_loop IsNumbered
ops_loop-IsNumbered mail lib n [] h = rw (← ok-injective h) tt
ops_loop-IsNumbered mail lib n (snap ∷ relevant) {ops} h =
    elim (Bool-cases (is_append_stage mail lib snap)) [
      | inl a ↦ elim (Bool-cases (is_empty (read_append_content mail lib snap))) [
        | inl c ↦ ops_loop-IsNumbered mail lib n relevant (rw (a, c) at h)
        | inr c ↦
            let (rest, e, last) =
              >>=-eq-ok (ops_loop mail lib (n + 1) relevant) _ (rw (a, c) at h) in
            let later = ops_loop-IsNumbered mail lib (n + 1) relevant e in
            rw (← ok-injective last) (refl, rw (plus_one n) at later)
      ]
      | inr a ↦ elim (Bool-cases (is_edit_stage mail lib snap)) [
        | inl c ↦
            let (payload, e, more) = >>=-eq-ok (parse_edit_body mail lib snap) _ (rw (a, c) at h) in
            let (rest, f, last) = >>=-eq-ok (ops_loop mail lib n relevant) _ more in
            rw (← ok-injective last) (ops_loop-IsNumbered mail lib n relevant f)
        | inr c ↦ ops_loop-IsNumbered mail lib n relevant (rw (a, c) at h)
      ]
    ]

-- Where `collect_ops` does not raise, `apply_response_ops` gives the array of the chunks, its keys
-- the indices from 0: an append adds the next index, and an edit of an index that is not there
-- changes nothing.
pub apply_response_ops-array :
    (mail : MailLib) (lib : ResponseLib) (chain : List Snapshot) (ops : List ResponseOp)
    → collect_ops mail lib chain ≡ ok ops
    → apply_response_ops ops ≡ numbered 0 (array_of ops)
unfolding collect_ops apply_response_ops array_of numbered
apply_response_ops-array mail lib chain ops h =
    apply_loop-numbered [] ops (ops_loop-IsNumbered mail lib 0 (relevant_snaps mail lib chain) h)

pub sorted-numbered :
    (i : ℕ) (chunks : List (Option Text))
    → sorted (keys (numbered i chunks)) ≡ keys (numbered i chunks)
unfolding sorted insert numbered int_le
sorted-numbered i [] = refl
sorted-numbered i (c ∷ []) = refl
sorted-numbered i (c ∷ d ∷ chunks) = ground (arith, sorted-numbered (suc i) (d ∷ chunks))

pub get-numbered :
    (i k : ℕ) (chunks : List (Option Text))
    → get (pos (i + k)) (numbered i chunks) ≡ get_elem? chunks k
unfolding get numbered int_eq
get-numbered i k [] = refl
get-numbered i zero (c ∷ chunks) = ground arith
get-numbered i (suc k) (c ∷ chunks) = ground (arith, get-numbered (suc i) k chunks)

pub shift : (i k : ℕ) → i + suc k ≡ suc i + k
shift i k = omega arith

pub live_parts-numbered :
    (dict : Dict ℤ (Option Text)) (i : ℕ) (chunks : List (Option Text))
    → ((k : ℕ) → k < length chunks → get (pos (i + k)) dict ≡ get_elem? chunks k)
    → live_parts dict (keys (numbered i chunks)) ≡ live chunks
unfolding live_parts numbered live chunk_at
live_parts-numbered dict i [] h = refl
live_parts-numbered dict i (none ∷ chunks) h =
    let rest =
      live_parts-numbered dict (suc i) chunks
        (λ k m. rw (shift i k) at (h (suc k) (omega (arith, m)))) in
    ground (arith, h 0)
live_parts-numbered dict i (some t ∷ chunks) h =
    let rest =
      live_parts-numbered dict (suc i) chunks
        (λ k m. rw (shift i k) at (h (suc k) (omega (arith, m)))) in
    ground (arith, h 0)

-- An answer that is made of a turn's letters: `reduce_ops` gives the template the chunks of the
-- array that are not deleted, in the order in which they were appended, and strips the outcome. It
-- supposes that `collect_ops` did not raise on the chain.
pub reduce_ops-array :
    (mail : MailLib) (lib : ResponseLib) (assembly : List Text → Text) (chain : List Snapshot)
    (ops : List ResponseOp)
    → collect_ops mail lib chain ≡ ok ops
    → reduce_ops assembly ops ≡ strip (assembly (live (array_of ops)))
unfolding reduce_ops
reduce_ops-array mail lib assembly chain ops h =
    rw
      (
        apply_response_ops-array mail lib chain ops h,
        sorted-numbered 0 (array_of ops),
        live_parts-numbered (numbered 0 (array_of ops)) 0 (array_of ops)
            (λ k m. get-numbered 0 k (array_of ops)),
      )
      refl
