-- ===== src/Summary/Fed.antt =====
-- Every unit of a task is in the history that the rounds run over.
use mathlib.Core.Path.{subst}
use threlium.Prelude.{
  ℕ, suc, ◌+◌, leb, ◌≡◌, refl, sym, List, [], ◌∷◌, ◌++◌, some, length, All, ok, ok-injective,
  Bool-cases, Option-cases, inl, inr,
}
use threlium.Prelude.Among.{
  Among, All-among, All-append, All-imp, Among-left, Among-right, Among-append,
}
use threlium.Prelude.Text.{Text, text_eq}
use threlium.Irt.Snapshot.{from_optional_raw}
use threlium.Summary.Pack.{HistoryPart, History}
use threlium.Summary.Greedy.{parts_of}
use threlium.Summary.History.{
  SummaryLib, SummarizeHistoryUnit, append_part, build_loop, build_history_by_mid, count_tokens,
  texts_of, fragment_parts, split_parts, split_oversized_in_place,
}

append_part-adds :
    (inner : Text) (q : HistoryPart) (out : History) → Among q (parts_of (append_part inner q out))
unfolding append_part parts_of
append_part-adds inner q [] = inl refl
append_part-adds inner q ((mid, parts) ∷ out) = elim (Bool-cases (text_eq mid inner)) [
  | inl t ↦
      rw t (Among-left _ (parts ++ q ∷ []) (parts_of out) (Among-right _ parts (q ∷ []) (inl refl)))
  | inr f ↦ rw f (Among-right _ parts _ (append_part-adds inner q out))
]

append_part-keeps :
    (inner : Text) (q : HistoryPart) (out : History) (p : HistoryPart)
    → Among p (parts_of out)
    → Among p (parts_of (append_part inner q out))
unfolding append_part parts_of
append_part-keeps inner q [] p m = absurd m
append_part-keeps inner q ((mid, parts) ∷ out) p m = elim (Bool-cases (text_eq mid inner)) [
  | inl t ↦ elim (Among-append _ parts (parts_of out) m) [
    | inl h ↦ rw t (Among-left _ (parts ++ q ∷ []) (parts_of out) (Among-left _ parts (q ∷ []) h))
    | inr h ↦ rw t (Among-right _ (parts ++ q ∷ []) (parts_of out) h)
  ]
  | inr f ↦ elim (Among-append _ parts (parts_of out) m) [
    | inl h ↦ rw f (Among-left _ parts _ h)
    | inr h ↦ rw f (Among-right _ parts _ (append_part-keeps inner q out p h))
  ]
]

-- The history has a part with the content id and the text of the unit.
abbrev pub HasUnit : History → SummarizeHistoryUnit → Type 0
HasUnit history u =
    (p : HistoryPart) × Among p (parts_of history) × (p.cid ≡ u.cid) × (p.text ≡ u.text)

build_loop-keeps :
    (object : ℕ) (out : History) (units : List SummarizeHistoryUnit) {history : History}
    → build_loop object out units ≡ ok history
    → ((p : HistoryPart) → Among p (parts_of out) → Among p (parts_of history))
      × All (HasUnit history) units
unfolding build_loop
build_loop-keeps object out [] h = (λ p m. rw (← ok-injective h) m, tt)
build_loop-keeps object out (u ∷ units) h =
    elim (Option-cases (from_optional_raw (some u.source_mid))) [
      | inl e ↦ let x = rw (build_loop, e) at h in cc
      | inr (inner, e) ↦
          let q : HistoryPart = record { object = object; cid = u.cid; text = u.text } in
          let (keeps, rest) =
            build_loop-keeps (suc object) (append_part inner q out) units
              (rw (build_loop, e) at h) in
          (
            λ p m. keeps p (append_part-keeps inner q out p m),
            ((q, keeps q (append_part-adds inner q out), refl, refl), rest),
          )
    ]

-- A part has the text.
abbrev pub IsTextOf : List HistoryPart → Text → Type 0
IsTextOf parts t = (p : HistoryPart) × Among p parts × (p.text ≡ t)

module _ (lib : SummaryLib) (chunk_token_limit : ℕ) where
  fragment_parts-text :
      (object : ℕ) (frags : List Text) → All (IsTextOf (fragment_parts lib object frags)) frags
  unfolding fragment_parts
  fragment_parts-text object [] = tt
  fragment_parts-text object (frag ∷ frags) = (
    (_, inl refl, refl),
    All-imp _ _ (λ t h. (h.0, inr h.1, h.2)) frags (fragment_parts-text (suc object) frags),
  )

  -- The texts that a text is fed as are texts of parts.
  abbrev pub IsCutInto : List HistoryPart → Text → Type 0
  IsCutInto parts text = All (IsTextOf parts) (texts_of lib chunk_token_limit text)

  wider :
      (parts more : List HistoryPart) (text : Text)
      → ((p : HistoryPart) → Among p parts → Among p more)
      → IsCutInto parts text
      → IsCutInto more text
  wider parts more text sub h = All-imp _ _ (λ t k. (k.0, sub k.0 k.1, k.2)) _ h

  -- What takes the place of the first part, and what follows it.
  split-first :
      (object : ℕ) (p : HistoryPart) (parts : List HistoryPart)
      → (first : List HistoryPart) × (next : ℕ) × ((split_parts lib chunk_token_limit object
            (p ∷ parts)).1
          ≡ first ++ (split_parts lib chunk_token_limit next parts).1)
        × IsCutInto first p.text
  unfolding split_parts texts_of
  split-first object p parts =
      let frags = texts_of lib chunk_token_limit p.text in
      elim (Bool-cases (leb (count_tokens lib p.text) chunk_token_limit)) [
        | inl t ↦
            (p ∷ [], object, rw (split_parts, t) refl, rw (texts_of, t) ((p, inl refl, refl), tt))
        | inr f ↦ (
          fragment_parts lib object frags,
          object + length frags,
          rw (split_parts, f) refl,
          fragment_parts-text object frags,
        )
      ]

  split_parts-cut :
      (object : ℕ) (parts : List HistoryPart)
      → All (λ p. IsCutInto (split_parts lib chunk_token_limit object parts).1 p.text) parts
  split_parts-cut object [] = tt
  split_parts-cut object (p ∷ parts) =
      let (first, next, e, here) = split-first object p parts in
      subst (λ whole. All (λ q. IsCutInto whole q.text) (p ∷ parts)) (sym e)
        (
          wider _ _ p.text (λ x m. Among-left x first _ m) here,
          All-imp _ _ (λ q h. wider _ _ q.text (λ x m. Among-right x first _ m) h) parts
              (split_parts-cut next parts),
        )

  split-cut :
      (object : ℕ) (history : History)
      → All
          (λ p.
            IsCutInto
              (parts_of (split_oversized_in_place lib chunk_token_limit object history))
              p.text)
          (parts_of history)
  unfolding split_oversized_in_place parts_of
  split-cut object [] = tt
  split-cut object ((inner, parts) ∷ history) =
      let cut = split_parts lib chunk_token_limit object parts in
      All-append _ parts (parts_of history)
        (All-imp _ _ (λ q h. wider _ _ q.text (λ x m. Among-left x cut.1 _ m) h) parts
          (split_parts-cut object parts))
        (All-imp _ _ (λ q h. wider _ _ q.text (λ x m. Among-right x cut.1 _ m) h) (parts_of history)
          (split-cut cut.0 history))

  -- The text of every unit is among the texts of the parts, whole or as fragments.
  pub built-cut :
      (object : ℕ) (units : List SummarizeHistoryUnit) {history : History}
      → build_history_by_mid units ≡ ok history
      → All
          (λ u.
            IsCutInto
              (parts_of (split_oversized_in_place lib chunk_token_limit object history))
              u.text)
          units
  unfolding build_history_by_mid
  built-cut object units {history} h =
      All-imp _ _
        (λ u k.
          subst (IsCutInto _) k.3 (All-among _ (parts_of history) k.1 (split-cut object history)))
        units (build_loop-keeps 0 [] units h).1
