-- ===== src/Hop/Stack.antt =====
-- The hop budget as a stack of integers: what the operations of `HopBudgetLine` do to the stack
-- that a line stands for.
use mathlib.Core.List.{map-append}
use threlium.Prelude.{
  zero, suc, ◌-◌, ◌>>=◌, suc, arith, ◌-◌, Result, inl, inr, ◌∙◌, sym, Bool-cases, true,
  ok-injective, true, ◌⊎◌, none, ℕ, ◌≡◌, refl, ap, false, some, List, [], ◌∷◌, ◌++◌, map, All, ok,
}
use threlium.Prelude.Text.{Text}
use threlium.Prelude.Int.{sub_one, clamp, is_positive, ℤ, pos}
use threlium.Task.Words.{IsWord}
use threlium.Hop.Line.{
  advance_simple_step, remaining, push_subagent, IntText, last_of, set_last, hop_tokens,
  from_tokens, as_int, from_int, tokens_or_root,
}
use threlium.Hop.Words.{parse-word, hop_tokens-from_tokens, last_of-snoc, set_last-snoc}

-- `int` reads what `str` writes, and `str` writes a word.
abbrev pub Codec : IntText → Type 0
Codec it = (n : ℤ) → (it.int (it.str n) ≡ some n) × IsWord (it.str n)

module _ (it : IntText) (law : Codec it) (root_default : ℕ) where
  open it use {int, str}

  -- A line stands for a stack, `n` on top; an empty line stands for the default of the root.
  abbrev pub IsStack : Text → List ℤ → ℤ → Type 0
  IsStack line ns n = tokens_or_root it (pos root_default) line ≡ map str (ns ++ n ∷ [])

  words : (ns : List ℤ) → All IsWord (map str ns)
  words [] = tt
  words (n ∷ ns) = ((law n).1, words ns)

  from_int-str : (n : ℤ) → from_int it n ≡ str n
  unfolding from_int
  from_int-str n = parse-word (str n) (law n).1

  -- The line that is made of a stack stands for it.
  from_tokens-IsStack :
      (ns : List ℤ) (n : ℤ) → IsStack (from_tokens (map str ns ++ str n ∷ [])) ns n
  unfolding tokens_or_root
  from_tokens-IsStack [] n =
      rw (tokens_or_root, hop_tokens-from_tokens (str n) [] (words (n ∷ []))) refl
  from_tokens-IsStack (m ∷ ns) n =
      let whole = map-append str ns (n ∷ []) in
      rw
        (
          tokens_or_root,
          ← whole,
          hop_tokens-from_tokens (str m) (map str (ns ++ n ∷ [])) (words (m ∷ ns ++ n ∷ [])),
        )
        refl

  top :
      (line : Text) (ns : List ℤ) (n : ℤ)
      → IsStack line ns n
      → as_int it (last_of [] (tokens_or_root it (pos root_default) line)) ≡ ok n
  unfolding as_int
  top line ns n h =
      rw (h, map-append str ns (n ∷ []), last_of-snoc [] (str n) (map str ns))
        (unfold as_int in rw (as_int, (law n).0) refl)

  put :
      (line : Text) (ns : List ℤ) (n m : ℤ)
      → IsStack line ns n
      → set_last (from_int it m) (tokens_or_root it (pos root_default) line)
        ≡ map str ns ++ str m ∷ []
  put line ns n m h =
      rw (h, map-append str ns (n ∷ []), from_int-str m, set_last-snoc (str m) (str n) (map str ns))
        refl

  remaining-top :
      (line : Text) (ns : List ℤ) (n : ℤ)
      → IsStack line ns n
      → remaining it (pos root_default) line ≡ ok (pos (clamp n))
  unfolding remaining tokens_or_root as_int last_of
  remaining-top line ns n h = go (hop_tokens line) refl
    where
      go :
          (ts : List Text)
          → hop_tokens line ≡ ts
          → remaining it (pos root_default) line ≡ ok (pos (clamp n))
      go [] e =
          let is_top =
            rw (tokens_or_root, e, last_of, from_int-str (pos root_default)) at (top line ns n h) in
          let number : as_int it (str (pos root_default)) ≡ ok (pos root_default) =
            unfold as_int in rw (as_int, (law (pos root_default)).0) refl in
          let same : pos root_default ≡ n = ok-injective (sym number ∙ is_top) in
          rw (remaining, e, ← same) refl
      go (t ∷ ts) e =
          let is_top = rw (tokens_or_root, e, last_of) at (top line ns n h) in
          rw (remaining, e, is_top) refl

  -- A step between stages takes one from the top of the stack, not below 0, and leaves the rest as
  -- it is; an empty line counts as the default of the root. It supposes that `int` reads what `str`
  -- writes and that `str` writes a word.
  pub advance_simple_step-IsStack :
      (line : Text) (ns : List ℤ) (n : ℤ)
      → IsStack line ns n
      → (next : Text) × (advance_simple_step it (pos root_default) line ≡ ok next)
        × IsStack next ns (pos (clamp (sub_one n)))
  unfolding advance_simple_step
  advance_simple_step-IsStack line ns n h = (
    _,
    rw (advance_simple_step, top line ns n h, put line ns n (pos (clamp (sub_one n))) h) refl,
    from_tokens-IsStack ns (pos (clamp (sub_one n))),
  )

  -- A subagent starts with a budget of its own on top of what is left to its parent after the step;
  -- it is refused where the parent would be left with less than one.
  pub push_subagent-IsStack :
      (line : Text) (ns : List ℤ) (n sub_max : ℤ)
      → IsStack line ns n
      → ((is_positive (sub_one n) ≡ false)
          × (push_subagent it (pos root_default) sub_max line ≡ ok none))
        ⊎ ((is_positive (sub_one n) ≡ true)
            × ((next : Text) × (push_subagent it (pos root_default) sub_max line ≡ ok (some next))
                × IsStack next (ns ++ sub_one n ∷ []) sub_max))
  unfolding push_subagent
  push_subagent-IsStack line ns n sub_max h = elim (Bool-cases (is_positive (sub_one n))) [
    | inr f ↦ inl (f, rw (push_subagent, top line ns n h, f) refl)
    | inl t ↦ inr (
      t,
      (
        _,
        rw (push_subagent, top line ns n h, t, put line ns n (sub_one n) h, from_int-str sub_max)
            refl,
        rw (map-append str ns (sub_one n ∷ [])) at
            (from_tokens-IsStack (ns ++ sub_one n ∷ []) sub_max),
      ),
    )
  ]

  -- `k` steps between stages, one after another.
  unfoldable pub steps : ℕ → Text → Result Text
  unfolding advance_simple_step
  steps zero line = ok line
  steps (suc k) line = advance_simple_step it (pos root_default) line >>= λ next. steps k next

  step_down : (n : ℕ) → pos (clamp (sub_one (pos n))) ≡ pos (n - 1)
  step_down zero = refl
  step_down (suc n) = ap pos (omega arith)

  -- After `k` steps between stages, none of which raises, a level that had `n` hops has `n - k` left,
  -- so that every level is exhausted after `n` steps. It supposes that `int` reads what `str` writes
  -- and that `str` writes a word.
  pub remaining-steps :
      (k n : ℕ) (line : Text) (ns : List ℤ)
      → IsStack line ns (pos n)
      → (last : Text) × (steps k line ≡ ok last)
        × (remaining it (pos root_default) last ≡ ok (pos (n - k)))
  unfolding steps
  remaining-steps zero n line ns h =
      (line, refl, remaining-top line ns (pos n) h ∙ ap (λ z. ok (pos z)) (omega arith))
  remaining-steps (suc k) n line ns h =
      let (next, e, stack) = advance_simple_step-IsStack line ns (pos n) h in
      let (last, f, left) = remaining-steps k (n - 1) next ns (rw (step_down n) at stack) in
      (last, rw (steps, e) f, left ∙ ap (λ z. ok (pos z)) (omega arith))
