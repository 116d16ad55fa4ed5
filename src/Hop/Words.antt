-- ===== src/Hop/Words.antt =====
-- The text of a hop budget: a line that is made of words is split into those words again.
use mathlib.Core.List.{reverse-reverse, reverse-append}
use threlium.Prelude.{ℕ, ◌≡◌, refl, ap, false, some, List, [], ◌∷◌, ◌++◌, map, reverse, All}
use threlium.Prelude.Text.{Text, is_space, lstrip, strip}
use threlium.Prelude.Wire
use threlium.Prelude.Wire.{kv_value}
use threlium.Task.Words.{split, join_space, NoSpace, IsWord, split-join_space}
use threlium.Hop.Line.{last_of, set_last, hop_tokens, from_tokens}

-- A text that does not begin with white space.
abbrev IsOpen : Text → Type 0
IsOpen [] = ⊥
IsOpen (c ∷ s) = is_space c ≡ false

lstrip-IsOpen : (s : Text) → IsOpen s → lstrip s ≡ s
unfolding lstrip
lstrip-IsOpen [] h = refl
lstrip-IsOpen (c ∷ s) h = rw h refl

append-IsOpen : (s t : Text) → IsOpen s → IsOpen (s ++ t)
append-IsOpen (c ∷ s) t h = h
append-IsOpen [] t h = absurd h

IsWord-IsOpen : (w : Text) → IsWord w → IsOpen w
IsWord-IsOpen (c ∷ w) h = h.0
IsWord-IsOpen [] h = absurd h

-- A word read backwards is a word.
snoc-IsWord : (w : Text) (c : ℕ) → NoSpace w → is_space c ≡ false → IsWord (w ++ c ∷ [])
snoc-IsWord [] c h k = (k, tt)
snoc-IsWord (d ∷ []) c h k = (h.0, (k, tt))
snoc-IsWord (d ∷ e ∷ w) c h k = (h.0, snoc-IsWord (e ∷ w) c h.1 k)

reverse-NoSpace : (w : Text) → NoSpace w → NoSpace (reverse w)
reverse-NoSpace [] h = tt
reverse-NoSpace (c ∷ w) h =
    rw (reverse-append (c ∷ []) w)
      (IsWord-NoSpace _ (snoc-IsWord (reverse w) c (reverse-NoSpace w h.1) h.0))
  where
    IsWord-NoSpace : (w : Text) → IsWord w → NoSpace w
    IsWord-NoSpace [] h = tt
    IsWord-NoSpace (d ∷ w) h = h

reverse-IsOpen : (w : Text) → IsWord w → IsOpen (reverse w)
reverse-IsOpen [] h = absurd h
reverse-IsOpen (c ∷ w) h =
    rw (reverse-append (c ∷ []) w)
      (IsWord-IsOpen _ (snoc-IsWord (reverse w) c (reverse-NoSpace w h.1) h.0))

join_space-IsOpen : (w : Text) (ws : List Text) → All IsWord (w ∷ ws) → IsOpen (join_space (w ∷ ws))
unfolding join_space
join_space-IsOpen w [] h = IsWord-IsOpen w h.0
join_space-IsOpen w (v ∷ ws) h = append-IsOpen w _ (IsWord-IsOpen w h.0)

reverse-join_space :
    (w : Text) (ws : List Text) → All IsWord (w ∷ ws) → IsOpen (reverse (join_space (w ∷ ws)))
unfolding join_space
reverse-join_space w [] h = reverse-IsOpen w h.0
reverse-join_space w (v ∷ ws) h =
    let rest = join_space (v ∷ ws) in
    rw (reverse-append w (32 ∷ rest), reverse-append (32 ∷ []) rest)
      (append-IsOpen _ (reverse w)
        (append-IsOpen (reverse rest) (32 ∷ []) (reverse-join_space v ws h.1)))

-- A text with no white space at its ends is its own strip, and `parse` keeps it.
parse-open : (s : Text) → IsOpen s → IsOpen (reverse s) → Wire.parse (some s) ≡ s
unfolding Wire.parse
parse-open [] h k = absurd h
parse-open (c ∷ s) h k =
    let stripped : strip (c ∷ s) ≡ c ∷ s =
      unfold strip in
      rw (lstrip-IsOpen (c ∷ s) h, lstrip-IsOpen (reverse (c ∷ s)) k) (reverse-reverse (c ∷ s)) in
    unfold kv_value in rw (Wire.parse, kv_value, stripped) refl

pub parse-word : (w : Text) → IsWord w → Wire.parse (some w) ≡ w
parse-word w h = parse-open w (IsWord-IsOpen w h) (reverse-IsOpen w h)

map-parse : (ws : List Text) → All IsWord ws → map (λ t. Wire.parse (some t)) ws ≡ ws
map-parse [] h = refl
map-parse (w ∷ ws) h = rw (parse-word w h.0, map-parse ws h.1) refl

hop_tokens-open : (s : Text) → IsOpen s → hop_tokens s ≡ map (λ t. Wire.parse (some t)) (split s)
unfolding hop_tokens
hop_tokens-open [] h = absurd h
hop_tokens-open (c ∷ s) h = refl

-- The tokens of a line that is made of words are those words.
pub hop_tokens-from_tokens :
    (w : Text) (ws : List Text) → All IsWord (w ∷ ws) → hop_tokens (from_tokens (w ∷ ws)) ≡ w ∷ ws
unfolding from_tokens
hop_tokens-from_tokens w ws h =
    let open_end = join_space-IsOpen w ws h in
    rw
      (
        parse-open (join_space (w ∷ ws)) open_end (reverse-join_space w ws h),
        hop_tokens-open (join_space (w ∷ ws)) open_end,
        split-join_space (w ∷ ws) h,
        map-parse (w ∷ ws) h,
      )
      refl

pub last_of-snoc : (x z : Text) (ys : List Text) → last_of x (ys ++ z ∷ []) ≡ z
unfolding last_of
last_of-snoc x z [] = refl
last_of-snoc x z (y ∷ ys) = last_of-snoc y z ys

pub set_last-snoc : (x z : Text) (ys : List Text) → set_last x (ys ++ z ∷ []) ≡ ys ++ x ∷ []
unfolding set_last
set_last-snoc x z [] = refl
set_last-snoc x z (y ∷ []) = refl
set_last-snoc x z (y ∷ w ∷ ys) = ap (◌∷◌ y) (set_last-snoc x z (w ∷ ys))
