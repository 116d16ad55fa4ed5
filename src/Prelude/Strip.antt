-- ===== src/Prelude/Strip.antt =====
-- Texts that `strip` leaves as they are.
use Prim.Native.Nat.{ℕ}
use mathlib.Core.Path.{◌≡◌, refl, sym, ap, ◌∙◌}
use mathlib.Core.Bool.{Bool, true, false, not}
use mathlib.Core.Logic.{inl, inr}
use threlium.Prelude.Tests.{Bool-cases}
use mathlib.Core.List.{[], ◌∷◌, ◌++◌, reverse, reverse-append, reverse-reverse}
use mathlib.Core.Option.{some}
use native.Mathlib.Omega.{arith}
use threlium.Prelude.Wire.{parse, parse_present_optional, kv_value}
use threlium.Prelude.Text.{Text, strip, lstrip, is_space}

lstrip-head : (c : ℕ) (s : Text) → is_space c ≡ false → lstrip (c ∷ s) ≡ c ∷ s
unfolding lstrip
lstrip-head c s h = rw h refl

-- A text that begins and ends with a character that is no white space.
pub strip-ends :
    (c d : ℕ) (body : Text)
    → is_space c ≡ false
    → is_space d ≡ false
    → strip (c ∷ (body ++ d ∷ [])) ≡ c ∷ (body ++ d ∷ [])
unfolding strip
strip-ends c d body h k =
    rw
      (
        lstrip-head c (body ++ d ∷ []) h,
        reverse-append (c ∷ body) (d ∷ []),
        lstrip-head d (reverse (c ∷ body)) k,
      )
      (ap reverse (sym (reverse-append (c ∷ body) (d ∷ [])))
        ∙ reverse-reverse (c ∷ (body ++ d ∷ [])))

pub parse_present_optional-stripped :
    (c : ℕ) (t : Text)
    → strip (c ∷ t) ≡ c ∷ t
    → parse_present_optional (some (c ∷ t)) ≡ some (c ∷ t)
unfolding parse_present_optional kv_value
parse_present_optional-stripped c t h = rw (parse_present_optional, h, kv_value, h)

pub parse-stripped : (c : ℕ) (t : Text) → strip (c ∷ t) ≡ c ∷ t → parse (some (c ∷ t)) ≡ c ∷ t
unfolding parse kv_value
parse-stripped c t h = rw (parse, kv_value, h)

-- No white space at the beginning.
abbrev plain_head : Text → Bool
plain_head [] = true
plain_head (c ∷ s) = not (is_space c)

lstrip-plain : (s : Text) → plain_head (lstrip s) ≡ true
unfolding lstrip
lstrip-plain [] = refl
lstrip-plain (c ∷ s) = elim (Bool-cases (is_space c)) [
  | inl space ↦ rw space (lstrip-plain s)
  | inr letter ↦ rw (letter, letter) refl
]

lstrip-keeps : (s : Text) → plain_head s ≡ true → lstrip s ≡ s
unfolding lstrip
lstrip-keeps [] h = refl
lstrip-keeps (c ∷ s) h = ground arith

lstrip-split : (s : Text) → (front : Text) × (s ≡ front ++ lstrip s)
unfolding lstrip
lstrip-split [] = ([], refl)
lstrip-split (c ∷ s) = elim (Bool-cases (is_space c)) [
  | inl space ↦ let (front, e) = lstrip-split s in rw space (c ∷ front, ap (◌∷◌ c) e)
  | inr letter ↦ rw letter ([], refl)
]

plain_head-append : (a b : Text) → plain_head (a ++ b) ≡ true → plain_head a ≡ true
plain_head-append [] b h = refl
plain_head-append (c ∷ a) b h = h

pub strip-strip : (s : Text) → strip (strip s) ≡ strip s
unfolding strip
strip-strip s =
    let back = lstrip (reverse (lstrip s)) in
    let (front, e) = lstrip-split (reverse (lstrip s)) in
    let whole : lstrip s ≡ reverse back ++ reverse front =
      sym (reverse-reverse (lstrip s)) ∙ ap reverse e ∙ reverse-append front back in
    let head = plain_head-append (reverse back) (reverse front) (rw (← whole) (lstrip-plain s)) in
    rw
      (
        lstrip-keeps (reverse back) head,
        reverse-reverse back,
        lstrip-keeps back (lstrip-plain (reverse (lstrip s))),
      )
      refl
