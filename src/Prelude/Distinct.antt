-- ===== src/Prelude/Distinct.antt =====
-- Lists without repetition: what `sorted` makes of the keys of a dictionary depends on the keys
-- alone.
use mathlib.Core.Path.{◌≡◌, refl, sym, ap, ap₂, ◌∙◌}
use mathlib.Core.Logic.{inl, inr}
use mathlib.Core.Bool.{Bool, true, false, not, ◌&&◌, ◌||◌}
use mathlib.Core.List.{List, [], ◌∷◌}
use native.Mathlib.Omega.{arith}
use threlium.Prelude.Tests.{is_some, Bool-cases}
use threlium.Prelude.Keys.{Key, Key-refl, beq-sym}
use threlium.Prelude.Dict.{Dict, get, set, keys}
use threlium.Prelude.Sort.{insert, sorted, contains, contains-insert, contains-sorted}

module _ {ℓ} {K : Type ℓ} ⦃e : Key K⦄ where
  unfoldable pub distinct : List K → Bool
  unfolding contains
  distinct [] = true
  distinct (x ∷ xs) = not (contains x xs) && distinct xs

  -- `x` is below every key of the list.
  abbrev pub Below : K → List K → Type ℓ
  Below x xs = (k : K) → contains k xs ≡ true → (e.le x k ≡ true) × (e.beq x k ≡ false)

  -- Each element is below all that follow it.
  abbrev pub IsSorted : List K → Type ℓ
  IsSorted [] = Unit
  IsSorted (x ∷ xs) = Below x xs × IsSorted xs

  insert-Below :
      (x y : K) (ys : List K)
      → e.le y x ≡ true
      → e.beq y x ≡ false
      → Below y ys
      → Below y (insert x ys)
  insert-Below x y ys le ne b k m = elim (Bool-cases (e.beq x k)) [
    | inl t ↦ rw (← (e.beq_iff x k).0 t) (le, ne)
    | inr f ↦ b k (ground (arith, contains-insert k x ys))
  ]

  Below-cons :
      (x y : K) (ys : List K) → e.le x y ≡ true → e.beq x y ≡ false → Below y ys → Below x (y ∷ ys)
  unfolding contains
  Below-cons x y ys le ne b k m = elim (Bool-cases (e.beq y k)) [
    | inl t ↦ rw (← (e.beq_iff y k).0 t) (le, ne)
    | inr f ↦
        let after = b k (ground arith) in
        (
          e.le_trans x y k le after.0,
          ground (arith, e.beq_iff x k, e.beq_iff y k, e.le_antisym x y le, after, e.beq_iff x y),
        )
  ]

  insert-IsSorted :
      (x : K) (ys : List K) → contains x ys ≡ false → IsSorted ys → IsSorted (insert x ys)
  unfolding contains insert
  insert-IsSorted x [] h s = (λ k m. cc, tt)
  insert-IsSorted x (y ∷ ys) h s = elim (Bool-cases (e.le x y)) [
    | inl t ↦ rw t (Below-cons x y ys t (ground (arith, beq-sym x y)) s.0, s)
    | inr f ↦ rw f (
      insert-Below x y ys (e.le_total x y f) (ground arith) s.0,
      insert-IsSorted x ys (ground arith) s.1,
    )
  ]

  sorted-IsSorted : (xs : List K) → distinct xs ≡ true → IsSorted (sorted xs)
  unfolding distinct sorted
  sorted-IsSorted [] h = tt
  sorted-IsSorted (x ∷ xs) h =
      insert-IsSorted x (sorted xs) (ground (arith, contains-sorted x xs))
        (sorted-IsSorted xs (ground arith))

  tails :
      (x : K) (xs ys : List K)
      → Below x xs
      → Below x ys
      → ((k : K) → contains k (x ∷ xs) ≡ contains k (x ∷ ys))
      → (k : K) → contains k xs ≡ contains k ys
  unfolding contains
  tails x xs ys p q h k = ground (arith, p k, q k, h k)

  heads :
      (x y : K) (xs ys : List K)
      → Below x xs
      → Below y ys
      → ((k : K) → contains k (x ∷ xs) ≡ contains k (y ∷ ys))
      → x ≡ y
  unfolding contains
  heads x y xs ys p q h = elim (Bool-cases (e.beq x y)) [
    | inl t ↦ (e.beq_iff x y).0 t
    | inr f ↦
        e.le_antisym x y (p y (ground (arith, h y, Key-refl y))).0
          (q x (ground (arith, h x, Key-refl x, beq-sym x y))).0
  ]

  IsSorted-ext :
      (xs ys : List K)
      → IsSorted xs
      → IsSorted ys
      → ((k : K) → contains k xs ≡ contains k ys)
      → xs ≡ ys
  unfolding contains
  IsSorted-ext [] [] p q h = refl
  IsSorted-ext [] (y ∷ ys) p q h = ground (arith, h y, Key-refl y)
  IsSorted-ext (x ∷ xs) [] p q h = ground (arith, h x, Key-refl x)
  IsSorted-ext (x ∷ xs) (y ∷ ys) p q h =
      let same = heads x y xs ys p.0 q.0 h in
      ap₂ ◌∷◌ same (
        IsSorted-ext xs ys p.1 q.1
          (tails x xs ys p.0 (rw same q.0) (λ k. h k ∙ ap (λ z. contains k (z ∷ ys)) (sym same))))

  -- Two lists without repetition that hold the same keys are sorted to the same list.
  pub sorted-ext :
      (xs ys : List K)
      → distinct xs ≡ true
      → distinct ys ≡ true
      → ((k : K) → contains k xs ≡ contains k ys)
      → sorted xs ≡ sorted ys
  sorted-ext xs ys p q h =
      IsSorted-ext _ _ (sorted-IsSorted xs p) (sorted-IsSorted ys q)
        (λ k. simp (contains-sorted, h k))

module _ {ℓ κ} {K : Type ℓ} {V : Type κ} ⦃e : Key K⦄ where
  -- `k in d`
  pub contains-keys : (k : K) (d : Dict K V) → contains k (keys d) ≡ is_some (get k d)
  unfolding contains get
  contains-keys k [] = refl
  contains-keys k ((j, v) ∷ d) = ground (arith, contains-keys k d)

  keys-set :
      (k j : K) (v : V) (d : Dict K V)
      → contains j (keys (set k v d)) ≡ (e.beq k j || contains j (keys d))
  unfolding contains set
  keys-set k j v [] = refl
  keys-set k j v ((i, w) ∷ d) =
      ground (arith, keys-set k j v d, e.beq_iff i k, e.beq_iff i j, e.beq_iff k j)

  pub distinct-set :
      (k : K) (v : V) (d : Dict K V) → distinct (keys d) ≡ true → distinct (keys (set k v d)) ≡ true
  unfolding distinct set
  distinct-set k v [] h = refl
  distinct-set k v ((i, w) ∷ d) h =
      ground (arith, keys-set k i v d, distinct-set k v d, beq-sym k i)
