-- ===== src/Hop/Tests.antt =====
-- Runs of the hop budget, with decimal digits for a codec.
use threlium.Prelude.{
  ◌++◌, ◌==◌, true, false, ap, if◌then◌else◌, ℕ, zero, suc, ◌≡◌, refl, ◌-◌, none, some, [], ◌∷◌, ok,
  ◌⊎◌,
}
use threlium.Prelude.Text.{strip, Text, is_space}
use threlium.Prelude.Int.{pos, negsuc, sub_one, is_positive}
use threlium.Prelude.Wire
use threlium.Task.Words.{NoSpace}
use threlium.Hop.Line.{
  IntText, hop_tokens, tokens_or_root, from_int, remaining, advance_simple_step, push_subagent,
}
use threlium.Hop.Stack.{
  Codec, IsStack, steps, advance_simple_step-IsStack, push_subagent-IsStack, remaining-steps,
}

-- A unary codec: `n` strokes, with a sign.
abbrev strokes : ℕ → Text
strokes zero = []
strokes (suc n) = 49 ∷ strokes n

abbrev stroke_count : Text → ℕ
stroke_count [] = zero
stroke_count (c ∷ cs) = suc (stroke_count cs)

abbrev unary : IntText
unary = record {
  int = λ t. elim t [
    | [] ↦ none
    | c ∷ cs ↦ if c == 45 then some (negsuc (stroke_count cs)) else some (pos (stroke_count cs))
  ];
  str = λ n. elim n [ pos k ↦ 43 ∷ strokes k | negsuc k ↦ 45 ∷ strokes k ];
}

stroke_count-strokes : (n : ℕ) → stroke_count (strokes n) ≡ n
stroke_count-strokes zero = refl
stroke_count-strokes (suc n) = ap suc (stroke_count-strokes n)

strokes-NoSpace : (n : ℕ) → NoSpace (strokes n)
strokes-NoSpace zero = tt
strokes-NoSpace (suc n) = (unfold is_space in refl, strokes-NoSpace n)

unary_codec : Codec unary
unary_codec (pos k) =
    (ap (λ z. some (pos z)) (stroke_count-strokes k), (unfold is_space in refl, strokes-NoSpace k))
unary_codec (negsuc k) = (
  ap (λ z. some (negsuc z)) (stroke_count-strokes k),
  (unfold is_space in refl, strokes-NoSpace k),
)

-- A root with 48 hops, on a letter without the header.
empty_line : IsStack unary unary_codec 3 [] [] (pos 3)
unfolding tokens_or_root hop_tokens from_int Wire.parse strip
empty_line = refl

remaining-steps_example :
    (last : Text) × (steps unary unary_codec 3 2 [] ≡ ok last)
    × (remaining unary (pos 3) last ≡ ok (pos (3 - 2)))
remaining-steps_example = remaining-steps unary unary_codec 3 2 3 [] [] empty_line

advance_simple_step-IsStack_example :
    (next : Text) × (advance_simple_step unary (pos 3) [] ≡ ok next)
    × IsStack unary unary_codec 3 next [] (pos 2)
advance_simple_step-IsStack_example =
    advance_simple_step-IsStack unary unary_codec 3 [] [] (pos 3) empty_line

push_subagent-IsStack_example :
    ((is_positive (sub_one (pos 3)) ≡ false) × (push_subagent unary (pos 3) (pos 10) [] ≡ ok none))
    ⊎ ((is_positive (sub_one (pos 3)) ≡ true)
        × ((next : Text) × (push_subagent unary (pos 3) (pos 10) [] ≡ ok (some next))
            × IsStack unary unary_codec 3 next ([] ++ sub_one (pos 3) ∷ []) (pos 10)))
push_subagent-IsStack_example =
    push_subagent-IsStack unary unary_codec 3 [] [] (pos 3) (pos 10) empty_line
