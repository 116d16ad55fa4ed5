-- ===== src/Summary/Sources.antt =====
-- The ids of the originals: a set, sorted and parsed (threlium/states/summarize_context.py).
use threlium.Prelude.{
  ◌≡◌, refl, sym, ap, ◌∙◌, true, Bool, some, List, [], ◌∷◌, All, ok, raise_if, not, arith, inl, inr,
  Option-cases, Bool-cases, >>=-eq-ok, ok-injective, lookup_error,
}
use threlium.Prelude.Among.{Among, All-imp}
use threlium.Prelude.Sort.{contains}
use threlium.Prelude.Text.{Text, text_key, text_eq, text_eq_iff}
use threlium.Irt.Snapshot.{from_optional_raw}
use threlium.Summary.History.{SummarizeHistoryUnit}
use threlium.Summary.Context.{parse_mids, source_mids, batch_tag_add}

pub source_mids-has :
    (units : List SummarizeHistoryUnit) (u : SummarizeHistoryUnit)
    → Among u units
    → contains u.source_mid (source_mids units) ≡ true
unfolding source_mids contains
source_mids-has [] u m = absurd m
source_mids-has (v ∷ units) u (inl e) =
    elim (Bool-cases (contains v.source_mid (source_mids units))) [
      | inl t ↦ rw (t, e) t
      | inr f ↦ rw (f, e) (ground (arith, text_eq_iff v.source_mid v.source_mid))
    ]
source_mids-has (v ∷ units) u (inr m) =
    elim (Bool-cases (contains v.source_mid (source_mids units))) [
      | inl t ↦ rw t (source_mids-has units u m)
      | inr f ↦ rw f (ground (arith, source_mids-has units u m))
    ]

-- The id is the source of a unit.
abbrev pub IsSource : List SummarizeHistoryUnit → Text → Type 0
IsSource units mid = (u : SummarizeHistoryUnit) × Among u units × (u.source_mid ≡ mid)

pub source_mids-from :
    (units : List SummarizeHistoryUnit) (mid : Text)
    → contains mid (source_mids units) ≡ true
    → IsSource units mid
unfolding source_mids contains text_eq
source_mids-from [] mid h = cc
source_mids-from (v ∷ units) mid h = elim (Bool-cases (contains v.source_mid (source_mids units))) [
  | inl t ↦ older (source_mids-from units mid (rw t at h))
  | inr f ↦ elim (Bool-cases (text_eq v.source_mid mid)) [
    | inl same ↦ (v, inl refl, (text_eq_iff v.source_mid mid).0 same)
    | inr other ↦ older (source_mids-from units mid (rw (f, other) at h))
  ]
]
  where
    older : IsSource units mid → IsSource (v ∷ units) mid
    older (u, m, e) = (u, inr m, e)

pub parse_mids-to :
    (mids : List Text) {ids : List Text} (mid : Text)
    → parse_mids mids ≡ ok ids
    → contains mid mids ≡ true
    → (inner : Text) × (from_optional_raw (some mid) ≡ some inner) × (contains inner ids ≡ true)
unfolding parse_mids contains
parse_mids-to [] mid h c = cc
parse_mids-to (m ∷ mids) mid h c = elim (Option-cases (from_optional_raw (some m))) [
  | inl e ↦ let x = rw (parse_mids, e) at h in cc
  | inr (inner, e) ↦
      let (rest, p, q) = >>=-eq-ok (parse_mids mids) _ (rw (parse_mids, e) at h) in
      elim (Bool-cases (text_eq m mid)) [
        | inl same ↦ (
          inner,
          ap (λ x. from_optional_raw (some x)) (sym ((text_eq_iff m mid).0 same)) ∙ e,
          rw (← ok-injective q) (ground (arith, text_eq_iff inner inner)),
        )
        | inr other ↦
            let (i, f, k) = parse_mids-to mids mid p (ground (arith, other)) in
            (i, f, rw (← ok-injective q) (ground (arith, k)))
      ]
]

pub parse_mids-from :
    (mids ids : List Text)
    → parse_mids mids ≡ ok ids
    → All
        (λ id. (mid : Text) × (contains mid mids ≡ true) × (from_optional_raw (some mid) ≡ some id))
        ids
unfolding parse_mids contains
parse_mids-from [] ids h = rw (← ok-injective h) tt
parse_mids-from (m ∷ mids) ids h = elim (Option-cases (from_optional_raw (some m))) [
  | inl e ↦ let x = rw (parse_mids, e) at h in cc
  | inr (inner, e) ↦
      let (rest, p, q) = >>=-eq-ok (parse_mids mids) _ (rw (parse_mids, e) at h) in
      rw (← ok-injective q) (
        (m, ground (arith, text_eq_iff m m), e),
        All-imp _ _ (λ id k. (k.0, ground (arith, k.1), k.2)) rest (parse_mids-from mids rest p),
      )
]

pub batch_tag_add-all :
    (db_has : Text → Bool) (mids : List Text) {tagged : List Text}
    → batch_tag_add db_has mids ≡ ok tagged
    → tagged ≡ mids
unfolding batch_tag_add
batch_tag_add-all db_has [] h = sym (ok-injective h)
batch_tag_add-all db_has (mid ∷ mids) h =
    let (u, a, h1) = >>=-eq-ok (raise_if (not (db_has mid)) lookup_error) _ h in
    let (rest, b, h2) = >>=-eq-ok (batch_tag_add db_has mids) _ h1 in
    sym (ok-injective h2) ∙ ap (mid ∷◌) (batch_tag_add-all db_has mids b)
