-- ===== src/Summary/Greedy.antt =====
-- A round takes the longest prefix of the history that fits, and leaves the rest.
use mathlib.Core.List.{append_assoc, append-nil}
use threlium.Prelude.{
  ◌==◌, true, ◌∙◌, ==_iff, ◌⊎◌, sym, ◌≤◌, ap, arith, length, ℕ, ◌+◌, ◌<◌, ltb, ◌≡◌, refl, inl, inr,
  false, not, ◌&&◌, List, [], ◌∷◌, ◌++◌, is_empty, if◌then◌else◌, Bool-cases,
}
use threlium.Prelude.Text.{Text}
use threlium.Summary.Pack.{
  pack_next_fitted, consume_loop, consume_fitted, pop_fitted, HistoryPart, History, pack_parts,
  pack_loop,
}

-- All parts, oldest first.
unfoldable pub parts_of : History → List HistoryPart
parts_of [] = []
parts_of ((inner, parts) ∷ history) = parts ++ parts_of history

module _ (count : Text → ℕ) (content_budget : ℕ) where
  -- The tokens of the parts.
  unfoldable pub tokens : List HistoryPart → ℕ
  tokens [] = 0
  tokens (p ∷ parts) = count p.text + tokens parts

  -- A prefix that fits or is one part, and that no further part fits behind.
  pub data IsGreedy : List HistoryPart → List HistoryPart → Type 0 where
    all_fits : {fitted : List HistoryPart} → IsGreedy fitted []
    stops :
        {fitted rest : List HistoryPart} (p : HistoryPart)
        → content_budget < tokens fitted + count p.text
        → is_empty fitted ≡ false
        → IsGreedy fitted (p ∷ rest)

  -- The loop over a flat list.
  unfoldable greedy : List HistoryPart → ℕ → List HistoryPart → List HistoryPart
  greedy fitted used [] = fitted
  greedy fitted used (p ∷ parts) =
      let rest = greedy (fitted ++ p ∷ []) (used + count p.text) parts in
      if not (is_empty fitted) && ltb content_budget (used + count p.text) then fitted else rest

  pack_parts-greedy :
      (fitted : List HistoryPart) (used : ℕ) (parts : List HistoryPart) (history : History)
      → ((f : List HistoryPart) (u : ℕ)
          → pack_loop count content_budget f u history ≡ greedy f u (parts_of history))
      → (if (pack_parts count content_budget fitted used parts).1
          then (pack_parts count content_budget fitted used parts).0.0
          else pack_loop count content_budget
              (pack_parts count content_budget fitted used parts).0.0
              (pack_parts count content_budget fitted used parts).0.1
              history)
        ≡ greedy fitted used (parts ++ parts_of history)
  unfolding pack_parts greedy
  pack_parts-greedy fitted used [] history h = h fitted used
  pack_parts-greedy fitted used (p ∷ parts) history h =
      elim (Bool-cases (not (is_empty fitted) && ltb content_budget (used + count p.text))) [
        | inl t ↦ rw t refl
        | inr f ↦ rw f (pack_parts-greedy (fitted ++ p ∷ []) (used + count p.text) parts history h)
      ]

  pack_loop-greedy :
      (fitted : List HistoryPart) (used : ℕ) (history : History)
      → pack_loop count content_budget fitted used history ≡ greedy fitted used (parts_of history)
  unfolding pack_loop parts_of greedy
  pack_loop-greedy fitted used [] = refl
  pack_loop-greedy fitted used ((inner, parts) ∷ history) =
      pack_parts-greedy fitted used parts history (λ f u. pack_loop-greedy f u history)

  -- One part at most, or parts that fit.
  abbrev pub IsBounded : List HistoryPart → Type 0
  IsBounded fitted = (length fitted ≤ 1) ⊎ (tokens fitted ≤ content_budget)

  tokens-snoc :
      (parts : List HistoryPart) (p : HistoryPart)
      → tokens (parts ++ p ∷ []) ≡ tokens parts + count p.text
  unfolding tokens
  tokens-snoc [] p = omega arith
  tokens-snoc (q ∷ parts) p = omega (arith, tokens-snoc parts p)

  snoc-IsBounded :
      (fitted : List HistoryPart) (used : ℕ) (p : HistoryPart)
      → used ≡ tokens fitted
      → (not (is_empty fitted) && ltb content_budget (used + count p.text)) ≡ false
      → IsBounded (fitted ++ p ∷ [])
  unfolding tokens
  snoc-IsBounded [] used p e f = inl (omega arith)
  snoc-IsBounded (q ∷ fitted) used p e f = inr (ground (arith, e, f, tokens-snoc (q ∷ fitted) p))

  is_empty-append :
      (fitted parts : List HistoryPart)
      → is_empty fitted ≡ false
      → is_empty fitted ≡ is_empty (fitted ++ parts)
  is_empty-append [] parts h = cc
  is_empty-append (q ∷ fitted) parts h = refl

  greedy-taken :
      (fitted : List HistoryPart) (used : ℕ) (parts : List HistoryPart)
      → used ≡ tokens fitted
      → IsBounded fitted
      → (rest : List HistoryPart) × (fitted ++ parts ≡ greedy fitted used parts ++ rest)
        × IsBounded (greedy fitted used parts)
        × IsGreedy (greedy fitted used parts) rest
        × (is_empty (greedy fitted used parts) ≡ is_empty (fitted ++ parts))
  unfolding greedy
  greedy-taken fitted used [] e b = ([], refl, b, all_fits, ap is_empty (sym (append-nil fitted)))
  greedy-taken fitted used (p ∷ parts) e b =
      elim (Bool-cases (not (is_empty fitted) && ltb content_budget (used + count p.text))) [
        | inl t ↦
            rw (greedy, t)
              (
                p ∷ parts,
                refl,
                b,
                stops p (ground (arith, t, e)) (ground (arith, t)),
                is_empty-append fitted (p ∷ parts) (ground (arith, t)),
              )
        | inr f ↦
            let (rest, eq, bound, stop, same) =
              greedy-taken (fitted ++ p ∷ []) (used + count p.text) parts
                (ap (λ n. n + count p.text) e ∙ sym (tokens-snoc fitted p))
                (snoc-IsBounded fitted used p e f) in
            rw (greedy, f)
              (
                rest,
                sym (append_assoc fitted (p ∷ []) parts) ∙ eq,
                bound,
                stop,
                same ∙ ap is_empty (append_assoc fitted (p ∷ []) parts),
              )
      ]

  -- `pack_next_fitted` takes a prefix of the parts of the history, oldest first: a part at most or
  -- parts that fit the budget together, none only where there are none, and no further part fits
  -- behind them.
  pub pack_next_fitted-IsGreedy :
      (history : History)
      → (rest : List HistoryPart) × (parts_of history
          ≡ pack_next_fitted count content_budget history ++ rest)
        × IsBounded (pack_next_fitted count content_budget history)
        × IsGreedy (pack_next_fitted count content_budget history) rest
        × (is_empty (pack_next_fitted count content_budget history) ≡ is_empty (parts_of history))
  unfolding pack_next_fitted tokens
  pack_next_fitted-IsGreedy history =
      rw (pack_next_fitted, pack_loop-greedy [] 0 history)
        (greedy-taken [] 0 (parts_of history) refl (inl (omega arith)))

-- What `consume_fitted` leaves.
cons-head : {x y : HistoryPart} {xs ys : List HistoryPart} → x ∷ xs ≡ y ∷ ys → x ≡ y
cons-head e = cc

cons-tail : {x y : HistoryPart} {xs ys : List HistoryPart} → x ∷ xs ≡ y ∷ ys → xs ≡ ys
cons-tail e = cc

popped :
    (parts remaining more rest : List HistoryPart)
    → parts ++ more ≡ remaining ++ rest
    → ((pop_fitted parts remaining).0 ++ more ≡ (pop_fitted parts remaining).1 ++ rest)
      × ((is_empty (pop_fitted parts remaining).0 ≡ true)
          ⊎ (is_empty (pop_fitted parts remaining).1 ≡ true))
unfolding pop_fitted
popped [] remaining more rest e = (e, inl refl)
popped (p ∷ parts) [] more rest e = (e, inr refl)
popped (p ∷ parts) (r ∷ remaining) more rest e =
    let same : p ≡ r = cons-head e in
    let tails : parts ++ more ≡ remaining ++ rest = cons-tail e in
    let equal : (p.object == r.object) ≡ true =
      (==_iff p.object r.object).1 (ap (λ (x : HistoryPart). x.object) same) in
    rw equal (popped parts remaining more rest tails)

left_over :
    (inner : Text) (history : History) (parts remaining rest : List HistoryPart) (later : History)
    → parts ++ parts_of history ≡ remaining ++ rest
    → (is_empty parts ≡ true) ⊎ (is_empty remaining ≡ true)
    → (parts_of history ≡ remaining ++ rest → parts_of later ≡ rest)
    → parts_of (
        if is_empty parts
        then (if is_empty remaining then history else later)
        else (inner, parts) ∷ (if is_empty remaining then history else later))
      ≡ rest
unfolding parts_of
left_over inner history [] [] rest later eq stop h = eq
left_over inner history [] (r ∷ remaining) rest later eq stop h = h eq
left_over inner history (p ∷ parts) [] rest later eq stop h = eq
left_over inner history (p ∷ parts) (r ∷ remaining) rest later eq (inl t) h = cc
left_over inner history (p ∷ parts) (r ∷ remaining) rest later eq (inr t) h = cc

consumed :
    (history : History) (remaining rest : List HistoryPart)
    → parts_of history ≡ remaining ++ rest
    → parts_of (consume_loop history remaining) ≡ rest
unfolding consume_loop parts_of
consumed [] [] rest e = e
consumed [] (r ∷ remaining) rest e = cc
consumed ((inner, parts) ∷ history) remaining rest e =
    let (eq, stop) = popped parts remaining (parts_of history) rest e in
    left_over inner history _ _ rest _ eq stop (consumed history _ rest)

-- `consume_fitted` takes a prefix of the parts of the history out of it and leaves the other parts
-- in their order.
pub consume_fitted-prefix :
    (history : History) (fitted rest : List HistoryPart)
    → parts_of history ≡ fitted ++ rest
    → parts_of (consume_fitted history fitted) ≡ rest
unfolding consume_fitted
consume_fitted-prefix history fitted rest e = consumed history fitted rest e
