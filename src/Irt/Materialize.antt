-- ===== src/Irt/Materialize.antt =====
-- What a round of `_materialize_irt_chain` checks, and that its loop ends.
use threlium.Prelude.{
  ℕ, zero, suc, ◌+◌, ◌<◌, ◌≡◌, refl, sym, ap, true, false, not, Option, some, List, [], ◌∷◌, arith,
  Result, ok, raise, runtime_error, raise_if, raise_if-ok, Bool-cases, Option-cases, Result-cases,
  inl, inr, length, >>=-eq-ok, ok-injective,
}
use threlium.Prelude.Text.{Text, text_eq, text_eq_iff, text_key}
use threlium.Prelude.Sort.{contains}
use threlium.Prelude.Distinct.{distinct}
use threlium.Prelude.Pigeonhole.{length-le}
use threlium.Stage.Address.{MailLib}
use threlium.Irt.Snapshot.{Snapshot, in_reply_to_inner}
use threlium.Irt.Chain.{
  NmMessage, snapshot_from_nm_message, require_inner_message_id, equals_case_insensitive,
  require_matching_indexed_mid, visit, materialize_loop, materialize_irt_chain,
}

module _ (lib : MailLib) where
  open lib use {casefold}

  matched :
      (m : NmMessage) (next : Text) {i : Text}
      → require_matching_indexed_mid lib m next ≡ ok i
      → (require_inner_message_id m ≡ ok i) × (equals_case_insensitive lib i next ≡ true)
  unfolding require_matching_indexed_mid
  matched m next {i} h =
      let (j, e, h1) = >>=-eq-ok (require_inner_message_id m) _ h in
      let (v, e2, h2) =
        >>=-eq-ok (raise_if (not (equals_case_insensitive lib j next)) runtime_error) _ h1 in
      let same : j ≡ i = ok-injective h2 in rw (← same) (e, ground (arith, raise_if-ok _ _ e2))

  -- What a visit that does not raise has checked of the message: its id is the one that was asked
  -- for, and it has not been seen.
  unfoldable pub Visited : List Text → NmMessage → Text → Text → Type 0
  Visited seen m next key =
      (i : Text) × (require_inner_message_id m ≡ ok i)
      × (equals_case_insensitive lib i next ≡ true)
      × (key ≡ casefold i)
      × (contains key seen ≡ false)

  visit-Visited :
      (seen : List Text) (m : NmMessage) (next : Text) {snap : Snapshot} {key : Text}
      → visit lib seen m next ≡ ok (snap, key)
      → Visited seen m next key
  unfolding visit Visited
  visit-Visited seen m next {snap} {key} h =
      let (i, e1, h1) = >>=-eq-ok (require_matching_indexed_mid lib m next) _ h in
      let (u, e2, h2) = >>=-eq-ok (raise_if (contains (casefold i) seen) runtime_error) _ h1 in
      let (s, e3, h3) = >>=-eq-ok (snapshot_from_nm_message m i) _ h2 in
      let is : casefold i ≡ key = ap (λ p. p.1) (ok-injective h3) in
      let m2 = matched m next e1 in (i, m2.0, m2.1, sym is, rw (← is) (raise_if-ok _ _ e2))

  module _ (find : Text → Option NmMessage) (ids : List Text) where
    -- Every message of the index has its id in `ids`, folded.
    abbrev pub IsIndexed : Type 0
    IsIndexed =
        (next : Text) (m : NmMessage) (i : Text)
        → find next ≡ some m
        → require_inner_message_id m ≡ ok i
        → contains (casefold i) ids ≡ true

    included :
        (key : Text) (seen : List Text)
        → contains key ids ≡ true
        → ((k : Text) → contains k seen ≡ true → contains k ids ≡ true)
        → (k : Text) → contains k (key ∷ seen) ≡ true
        → contains k ids ≡ true
    unfolding contains
    included key seen here sub k m = elim (Bool-cases (text_eq key k)) [
      | inl t ↦ rw (← (text_eq_iff key k).0 t) here
      | inr f ↦ sub k (ground arith)
    ]

    materialize_loop-total :
        IsIndexed
        → (fuel : ℕ) (seen : List Text) (next : Text) → distinct seen ≡ true
        → ((k : Text) → contains k seen ≡ true → contains k ids ≡ true)
        → length ids < fuel + length seen
        → (r : Result (List Snapshot)) × (materialize_loop lib find fuel seen next ≡ some r)
    unfolding materialize_loop distinct Visited contains text_eq
    materialize_loop-total indexed zero seen next d sub enough =
        let short = length-le seen ids d sub in (raise runtime_error, ground (arith, short))
    materialize_loop-total indexed (suc fuel) seen next d sub enough =
        elim (Option-cases (find next)) [
          | inl e ↦ rw (materialize_loop, e) (_, refl)
          | inr (m, e) ↦ elim (Result-cases (visit lib seen m next)) [
            | inr (x, f) ↦ rw (materialize_loop, e, f) (_, refl)
            | inl ((snap, key), f) ↦ elim (Option-cases (in_reply_to_inner snap)) [
              | inl g ↦ rw (materialize_loop, e, f, g) (_, refl)
              | inr (parent, g) ↦
                  let (i, v0, v1, v2, v3) = visit-Visited seen m next f in
                  let here : contains key ids ≡ true = rw v2 (indexed next m i e v0) in
                  let (r, h) =
                    materialize_loop-total indexed fuel (key ∷ seen) parent (ground (arith, v3))
                      (included key seen here sub) (omega (arith, enough)) in
                  elim (Result-cases r) [
                    | inl (rest, q) ↦ rw (materialize_loop, e, f, g, h, q) (_, refl)
                    | inr (x, q) ↦ rw (materialize_loop, e, f, g, h, q) (_, refl)
                  ]
            ]
          ]
        ]

    -- Where every message of the index has its folded id in `ids`, one round more than there are
    -- ids is enough for `materialize_irt_chain` to end.
    pub materialize_irt_chain-total :
        IsIndexed
        → (fuel : ℕ) (start : Text) → length ids < fuel
        → (r : Result (List Snapshot)) × (materialize_irt_chain lib find fuel start ≡ some r)
    unfolding materialize_irt_chain distinct contains
    materialize_irt_chain-total indexed fuel start enough =
        materialize_loop-total indexed fuel [] start refl (λ k m. cc) (omega (arith, enough))
