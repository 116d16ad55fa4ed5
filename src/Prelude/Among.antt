-- ===== src/Prelude/Among.antt =====
-- The elements of a list as statements by recursion: membership, and what holds of every element.
use Prim.Native.Nat.{ℕ, zero, suc}
use mathlib.Core.Path.{◌≡◌, refl, subst}
use mathlib.Core.Logic.{◌⊎◌, inl, inr}
use mathlib.Core.Option.{some}
use mathlib.Core.List.{List, [], ◌∷◌, ◌++◌, map}
use threlium.Prelude.Lists.{All, get_elem?, replace_at}

abbrev pub Among : {A : Type 0} → A → List A → Type 0
Among x [] = ⊥
Among x (y ∷ ys) = (x ≡ y) ⊎ Among x ys

module _ {A : Type 0} (P : A → Type 0) where
  pub All-get : (xs : List A) (i : ℕ) {x : A} → get_elem? xs i ≡ some x → All P xs → P x
  All-get [] i e h = cc
  All-get (x ∷ xs) zero e h = subst P (cc) h.0
  All-get (x ∷ xs) (suc i) e h = All-get xs i e h.1

  pub All-among : (xs : List A) {x : A} → Among x xs → All P xs → P x
  All-among [] m h = absurd m
  All-among (y ∷ xs) (inl e) h = rw e h.0
  All-among (y ∷ xs) (inr m) h = All-among xs m h.1

  pub All-replace_at : (xs : List A) (i : ℕ) (x : A) → P x → All P xs → All P (replace_at xs i x)
  All-replace_at [] i x p h = tt
  All-replace_at (y ∷ xs) zero x p h = (p, h.1)
  All-replace_at (y ∷ xs) (suc i) x p h = (h.0, All-replace_at xs i x p h.1)

  pub All-append : (xs ys : List A) → All P xs → All P ys → All P (xs ++ ys)
  All-append [] ys h k = k
  All-append (x ∷ xs) ys h k = (h.0, All-append xs ys h.1 k)

  pub All-imp : (Q : A → Type 0) → ((x : A) → Q x → P x) → (xs : List A) → All Q xs → All P xs
  All-imp Q f [] h = tt
  All-imp Q f (x ∷ xs) h = (f x h.0, All-imp Q f xs h.1)

  -- A map that keeps what holds.
  pub All-map :
      (f : A → A) → ((x : A) → P x → P (f x)) → (xs : List A) → All P xs → All P (map f xs)
  All-map f keep [] h = tt
  All-map f keep (x ∷ xs) h = (keep x h.0, All-map f keep xs h.1)

pub Among-left : {A : Type 0} (x : A) (xs ys : List A) → Among x xs → Among x (xs ++ ys)
Among-left x [] ys m = absurd m
Among-left x (y ∷ xs) ys (inl e) = inl e
Among-left x (y ∷ xs) ys (inr m) = inr (Among-left x xs ys m)

pub Among-right : {A : Type 0} (x : A) (xs ys : List A) → Among x ys → Among x (xs ++ ys)
Among-right x [] ys m = m
Among-right x (y ∷ xs) ys m = inr (Among-right x xs ys m)

pub Among-append :
    {A : Type 0} (x : A) (xs ys : List A) → Among x (xs ++ ys) → Among x xs ⊎ Among x ys
Among-append x [] ys m = inr m
Among-append x (y ∷ xs) ys (inl e) = inl (inl e)
Among-append x (y ∷ xs) ys (inr m) = elim (Among-append x xs ys m) [
  | inl h ↦ inl (inr h)
  | inr h ↦ inr h
]

pub All-among_of :
    {A : Type 0} {P : A → Type 0} (xs : List A) → ((x : A) → Among x xs → P x) → All P xs
All-among_of [] f = tt
All-among_of (x ∷ xs) f = (f x (inl refl), All-among_of xs (λ y m. f y (inr m)))
