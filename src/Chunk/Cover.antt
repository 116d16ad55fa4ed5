-- ===== src/Chunk/Cover.antt =====
-- The windows of a part, without the tokens that they share, are the part.
use threlium.Prelude.{
  ℕ, zero, suc, ◌+◌, ◌-◌, ◌≤◌, ◌<◌, leb, ◌≡◌, refl, sym, ap, ◌∙◌, List, [], ◌∷◌, ◌++◌, length, take,
  drop, inl, inr, Bool-cases, arith, All, take-append-drop, length-drop, length-take-le,
}
use mathlib.Core.List.{append-nil}
use threlium.Chunk.Windows.{windows_loop, windows}

-- The windows in a row, each behind the first without its first `overlap` tokens.
unfoldable pub later_tokens : ℕ → List (List ℕ) → List ℕ
later_tokens overlap [] = []
later_tokens overlap (w ∷ ws) = drop overlap w ++ later_tokens overlap ws

unfoldable pub joined : ℕ → List (List ℕ) → List ℕ
unfolding later_tokens
joined overlap [] = []
joined overlap (w ∷ ws) = w ++ later_tokens overlap ws

drop-append : (n : ℕ) (a b : List ℕ) → n ≤ length a → drop n (a ++ b) ≡ drop n a ++ b
drop-append zero a b h = refl
drop-append (suc n) [] b h = absurd (omega arith)
drop-append (suc n) (x ∷ a) b h = drop-append n a b (omega arith)

drop-nil : (n : ℕ) → drop {A = ℕ} n [] ≡ []
drop-nil zero = refl
drop-nil (suc n) = refl

the_next : (n m : ℕ) → suc (n + m) ≡ suc n + m
the_next n m = omega arith

drop-drop : (m n : ℕ) (xs : List ℕ) → drop m (drop n xs) ≡ drop (n + m) xs
drop-drop m zero xs = ap (λ k. drop k xs) (omega arith)
drop-drop m (suc n) [] = drop-nil m ∙ sym (drop-nil (suc n + m))
drop-drop m (suc n) (x ∷ xs) = drop-drop m n xs ∙ ap (λ k. drop k (x ∷ xs)) (the_next n m)

take-all : (n : ℕ) (xs : List ℕ) → length xs ≤ n → take n xs ≡ xs
take-all zero [] h = refl
take-all zero (x ∷ xs) h = absurd (omega arith)
take-all (suc n) [] h = refl
take-all (suc n) (x ∷ xs) h = ap (◌∷◌ x) (take-all n xs (omega arith))

length-take : (n : ℕ) (xs : List ℕ) → n ≤ length xs → length (take n xs) ≡ n
length-take zero xs h = refl
length-take (suc n) [] h = absurd (omega arith)
length-take (suc n) (x ∷ xs) h = ap suc (length-take n xs (omega arith))

-- What a list of windows is to the tokens that it was made of.
pub record IsCover (body_max overlap : ℕ) (tokens : List ℕ) (ws : List (List ℕ)) : Type 0 where
  pub whole : joined overlap ws ≡ tokens
  pub bounded : All (λ w. length w ≤ body_max) ws

module _ (body_max overlap : ℕ) (fits : overlap < body_max) where
  -- The windows from a start on, where tokens are left.
  windows_loop-bounded :
      (fuel : ℕ) (rest : List ℕ)
      → All (λ w. length w ≤ body_max) (windows_loop body_max (body_max - overlap) fuel rest)
  unfolding windows_loop
  windows_loop-bounded zero rest = tt
  windows_loop-bounded (suc fuel) [] = tt
  windows_loop-bounded (suc fuel) (t ∷ rest) =
      elim (Bool-cases (leb (length (t ∷ rest)) body_max)) [
        | inl last ↦ rw last (length-take-le body_max (t ∷ rest), tt)
        | inr more ↦ rw more (
          length-take-le body_max (t ∷ rest),
          windows_loop-bounded fuel (drop (body_max - overlap) (t ∷ rest)),
        )
      ]

  -- What stands behind a window, and what the later windows bring of it.
  split-window :
      (rest : List ℕ)
      → body_max < length rest
      → take body_max rest ++ drop overlap (drop (body_max - overlap) rest) ≡ rest
  split-window rest h =
      ap (take body_max rest ++◌)
        (drop-drop overlap (body_max - overlap) rest ∙ ap (λ k. drop k rest) (omega arith))
      ∙ take-append-drop body_max rest

  later-windows_loop :
      (fuel : ℕ) (rest : List ℕ)
      → length rest ≤ fuel
      → overlap ≤ length rest
      → later_tokens overlap (windows_loop body_max (body_max - overlap) fuel rest)
        ≡ drop overlap rest
  unfolding windows_loop later_tokens
  later-windows_loop zero [] h k = sym (drop-nil overlap)
  later-windows_loop zero (t ∷ rest) h k = absurd (omega arith)
  later-windows_loop (suc fuel) [] h k = sym (drop-nil overlap)
  later-windows_loop (suc fuel) (t ∷ rest) h k =
      elim (Bool-cases (leb (length (t ∷ rest)) body_max)) [
        | inl last ↦
            rw (last, take-all body_max (t ∷ rest) (ground arith))
              (append-nil (drop overlap (t ∷ rest)))
        | inr more ↦
            let long : body_max < length (t ∷ rest) = ground arith in
            let tail = drop (body_max - overlap) (t ∷ rest) in
            let size = length-drop (body_max - overlap) (t ∷ rest) in
            rw (more, later-windows_loop fuel tail (omega arith) (omega arith))
              (sym (
                  drop-append overlap (take body_max (t ∷ rest)) (drop overlap tail)
                    (rw (length-take body_max (t ∷ rest) (omega arith)) (omega arith)))
                ∙ ap (drop overlap) (split-window (t ∷ rest) long))
      ]

  windows_loop-joined :
      (fuel : ℕ) (rest : List ℕ)
      → length rest ≤ fuel
      → joined overlap (windows_loop body_max (body_max - overlap) fuel rest) ≡ rest
  unfolding windows_loop joined
  windows_loop-joined zero [] h = refl
  windows_loop-joined zero (t ∷ rest) h = absurd (omega arith)
  windows_loop-joined (suc fuel) [] h = refl
  windows_loop-joined (suc fuel) (t ∷ rest) h =
      elim (Bool-cases (leb (length (t ∷ rest)) body_max)) [
        | inl last ↦ rw (last, take-all body_max (t ∷ rest) (ground arith)) (append-nil (t ∷ rest))
        | inr more ↦
            let long : body_max < length (t ∷ rest) = ground arith in
            let tail = drop (body_max - overlap) (t ∷ rest) in
            let size = length-drop (body_max - overlap) (t ∷ rest) in
            rw (more, later-windows_loop fuel tail (omega arith) (omega arith))
              (split-window (t ∷ rest) long)
      ]

  pub windows-IsCover :
      (tokens : List ℕ)
      → IsCover body_max overlap tokens (windows body_max (body_max - overlap) tokens)
  unfolding windows joined
  windows-IsCover tokens = elim (Bool-cases (leb (length tokens) body_max)) [
    | inl short ↦ rw short (record { whole = append-nil tokens; bounded = (ground arith, tt) })
    | inr long ↦ rw long (record {
      whole = windows_loop-joined (length tokens) tokens (omega arith);
      bounded = windows_loop-bounded (length tokens) tokens;
    })
  ]
