-- ===== src/Irt/Walk.antt =====
-- What `_materialize_irt_chain` returns, and where it raises: the chain without the loop.
use threlium.Prelude.{
  ℕ, zero, suc, ◌<◌, ◌≡◌, refl, sym, ap, ◌∙◌, true, false, Option, none, some, List, [], ◌∷◌, map,
  arith, Result, ok, raise, Error, runtime_error, Bool-cases, Option-cases, Result-cases, ◌⊎◌, inl,
  inr, length, All, >>=-eq-ok, ok-injective, some-injective, beq-sym,
}
use threlium.Prelude.Text.{Text, text_key}
use threlium.Prelude.Wire.{parse_single_line}
use threlium.Prelude.Sort.{contains}
use threlium.Prelude.Distinct.{distinct}
use threlium.Stage.Address.{MailLib}
use threlium.Irt.Snapshot.{Snapshot, in_reply_to_inner}
use threlium.Irt.Chain.{
  NmMessage, snapshot_from_nm_message, require_inner_message_id, equals_case_insensitive,
  require_matching_indexed_mid, visit, materialize_loop, materialize_irt_chain,
}
use threlium.Irt.Materialize.{IsIndexed, materialize_irt_chain-total}

snapshot-id :
    (m : NmMessage) (mid : Text) {snap : Snapshot}
    → snapshot_from_nm_message m mid ≡ ok snap
    → snap.message_id_inner ≡ mid
unfolding snapshot_from_nm_message
snapshot-id m mid h =
    let (subject, e, k) = >>=-eq-ok (parse_single_line m.subject) _ h in
    sym (ap (λ s. s.message_id_inner) (ok-injective k))

subject-raises :
    (m : NmMessage) (mid : Text) {e : Error}
    → snapshot_from_nm_message m mid ≡ raise e
    → parse_single_line m.subject ≡ raise e
unfolding snapshot_from_nm_message
subject-raises m mid h = by_subject (parse_single_line m.subject) refl h
  where
    by_subject :
        (r : Result (Option Text)) {e : Error}
        → parse_single_line m.subject ≡ r
        → snapshot_from_nm_message m mid ≡ raise e
        → r ≡ raise e
    by_subject (ok s) p k = let x = rw (snapshot_from_nm_message, p) at k in cc
    by_subject (raise e) p k = let x = rw (snapshot_from_nm_message, p) at k in cc

module _ (lib : MailLib) where
  open lib use {casefold}

  -- The snapshot of a message that was asked for by its id.
  pub record IsSnapshot (m : NmMessage) (next : Text) (snap : Snapshot) : Type 0 where
    pub its_id : require_inner_message_id m ≡ ok snap.message_id_inner
    pub asked_for : equals_case_insensitive lib snap.message_id_inner next ≡ true
    pub its_headers : snapshot_from_nm_message m snap.message_id_inner ≡ ok snap

  -- A message that a chain cannot hold.
  pub data IsBroken (seen : List Text) (m : NmMessage) (next : Text) : Error → Type 0 where
    no_id : {e : Error} → require_inner_message_id m ≡ raise e → IsBroken seen m next e
    other_id :
        (i : Text)
        → require_inner_message_id m ≡ ok i
        → equals_case_insensitive lib i next ≡ false
        → IsBroken seen m next runtime_error
    visited :
        (i : Text)
        → require_inner_message_id m ≡ ok i
        → contains (casefold i) seen ≡ true
        → IsBroken seen m next runtime_error
    broken_subject : {e : Error} → parse_single_line m.subject ≡ raise e → IsBroken seen m next e

  visit-cases :
      (seen : List Text) (m : NmMessage) (next : Text)
      → ((snap : Snapshot) × (visit lib seen m next ≡ ok (snap, casefold snap.message_id_inner))
          × IsSnapshot m next snap
          × (contains (casefold snap.message_id_inner) seen ≡ false))
        ⊎ ((e : Error) × (visit lib seen m next ≡ raise e) × IsBroken seen m next e)
  unfolding visit require_matching_indexed_mid
  visit-cases seen m next = elim (Result-cases (require_inner_message_id m)) [
    | inr (e, h) ↦ inr (e, rw (visit, require_matching_indexed_mid, h) refl, no_id h)
    | inl (i, h) ↦ elim (Bool-cases (equals_case_insensitive lib i next)) [
      | inr f ↦
          inr (runtime_error, rw (visit, require_matching_indexed_mid, h, f) refl, other_id i h f)
      | inl t ↦ elim (Bool-cases (contains (casefold i) seen)) [
        | inl c ↦
            inr
              (runtime_error, rw (visit, require_matching_indexed_mid, h, t, c) refl, visited i h c)
        | inr n ↦ elim (Result-cases (snapshot_from_nm_message m i)) [
          | inr (e, k) ↦ inr (
            e,
            rw (visit, require_matching_indexed_mid, h, t, n, k) refl,
            broken_subject (subject-raises m i k),
          )
          | inl (snap, k) ↦
              let is = snapshot-id m i k in
              inl (
                snap,
                rw (visit, require_matching_indexed_mid, h, t, n, k)
                    (ap (λ x. ok (snap, casefold x)) (sym is)),
                record {
                  its_id = rw is h;
                  asked_for = rw is t;
                  its_headers = ap (snapshot_from_nm_message m) is ∙ k;
                },
                rw is n,
              )
        ]
      ]
    ]
  ]

  module _ (find : Text → Option NmMessage) where
    -- The letters from `next` to the root: each is the message that the letter before it replies to,
    -- and the last one replies to none.
    pub data IsChain : Text → List Snapshot → Type 0 where
      root :
          (next : Text) (m : NmMessage) (snap : Snapshot)
          → find next ≡ some m
          → IsSnapshot m next snap
          → in_reply_to_inner snap ≡ none
          → IsChain next (snap ∷ [])
      reply :
          (next parent : Text) (m : NmMessage) (snap : Snapshot) (rest : List Snapshot)
          → find next ≡ some m
          → IsSnapshot m next snap
          → in_reply_to_inner snap ≡ some parent
          → IsChain parent rest
          → IsChain next (snap ∷ rest)

    -- The way up from `next` comes to an id that the index does not have, or to a message that a
    -- chain cannot hold, one that is visited for the second time included.
    pub data IsStuck : List Text → Text → Error → Type 0 where
      missing :
          {seen : List Text} (next : Text) → find next ≡ none → IsStuck seen next runtime_error
      broken :
          {seen : List Text} {e : Error} (next : Text) (m : NmMessage)
          → find next ≡ some m
          → IsBroken seen m next e
          → IsStuck seen next e
      further :
          {seen : List Text} {e : Error} (next parent : Text) (m : NmMessage) (snap : Snapshot)
          → find next ≡ some m
          → IsSnapshot m next snap
          → in_reply_to_inner snap ≡ some parent
          → IsStuck (casefold snap.message_id_inner ∷ seen) parent e
          → IsStuck seen next e

    abbrev pub folded_ids : List Snapshot → List Text
    folded_ids chain = map (λ s. casefold s.message_id_inner) chain

    abbrev IsUnseen : List Text → List Snapshot → Type 0
    IsUnseen seen chain = All (λ k. contains k seen ≡ false) (folded_ids chain)

    -- A whole chain of letters that are not seen, or the error of a way that gets stuck.
    abbrev IsWalked : List Text → Text → Result (List Snapshot) → Type 0
    IsWalked seen next (ok chain) =
        IsChain next chain × IsUnseen seen chain × (distinct (folded_ids chain) ≡ true)
    IsWalked seen next (raise e) = IsStuck seen next e

    unseen-tail :
        (key : Text) (seen ks : List Text)
        → All (λ k. contains k (key ∷ seen) ≡ false) ks
        → All (λ k. contains k seen ≡ false) ks × (contains key ks ≡ false)
    unfolding contains
    unseen-tail key seen [] h = (tt, refl)
    unseen-tail key seen (k ∷ ks) h =
        let (rest, n) = unseen-tail key seen ks h.1 in
        ((ground (arith, h.0), rest), ground (arith, h.0, n, beq-sym key k))

    step-IsWalked :
        (seen : List Text) (next parent : Text) (m : NmMessage) (snap : Snapshot)
        → find next ≡ some m
        → IsSnapshot m next snap
        → contains (casefold snap.message_id_inner) seen ≡ false
        → in_reply_to_inner snap ≡ some parent
        → (rest : List Snapshot) → IsWalked (casefold snap.message_id_inner ∷ seen) parent (ok rest)
        → IsWalked seen next (ok (snap ∷ rest))
    unfolding distinct
    step-IsWalked seen next parent m snap e s n g rest (c, u, d) =
        let (older, fresh) =
          unseen-tail (casefold snap.message_id_inner) seen (folded_ids rest) u in
        (reply next parent m snap rest e s g c, (n, older), rw (fresh, d) refl)

    materialize_loop-IsWalked :
        (fuel : ℕ) (seen : List Text) (next : Text) (r : Result (List Snapshot))
        → materialize_loop lib find fuel seen next ≡ some r
        → IsWalked seen next r
    unfolding materialize_loop distinct contains
    materialize_loop-IsWalked zero seen next r h = cc
    materialize_loop-IsWalked (suc fuel) seen next r h = elim (Option-cases (find next)) [
      | inl e ↦
          let is = some-injective (rw (materialize_loop, e) at h) in rw (← is) (missing next e)
      | inr (m, e) ↦ elim (visit-cases seen m next) [
        | inr (x, v, b) ↦
            let is = some-injective (rw (materialize_loop, e, v) at h) in
            rw (← is) (broken next m e b)
        | inl (snap, v, s, n) ↦ elim (Option-cases (in_reply_to_inner snap)) [
          | inl g ↦
              let is = some-injective (rw (materialize_loop, e, v, g) at h) in
              rw (← is) (root next m snap e s g, (n, tt), refl)
          | inr (parent, g) ↦
              let key = casefold snap.message_id_inner in
              by_rest e s n g (materialize_loop lib find fuel (key ∷ seen) parent)
                (materialize_loop-IsWalked fuel (key ∷ seen) parent)
                (rw (materialize_loop, e, v, g) at h)
        ]
      ]
    ]
      where
        by_rest :
            {m : NmMessage} {snap : Snapshot} {parent : Text}
            → find next ≡ some m
            → IsSnapshot m next snap
            → contains (casefold snap.message_id_inner) seen ≡ false
            → in_reply_to_inner snap ≡ some parent
            → (out : Option (Result (List Snapshot)))
            → ((q : Result (List Snapshot))
                → out ≡ some q
                → IsWalked (casefold snap.message_id_inner ∷ seen) parent q)
            → (elim out as (λ _. Option (Result (List Snapshot))) [
              | none ↦ none
              | some (raise e) ↦ some (raise e)
              | some (ok rest) ↦ some (ok (snap ∷ rest))
            ])
              ≡ some r
            → IsWalked seen next r
        by_rest e s n g none w k = cc
        by_rest e s n g (some (raise x)) w k =
            rw (← some-injective k) (further next _ _ _ e s g (w (raise x) refl))
        by_rest e s n g (some (ok rest)) w k =
            rw (← some-injective k) (step-IsWalked seen next _ _ _ e s n g rest (w (ok rest) refl))

    -- Where every message of the index has its folded id in `ids`, one round more than there are
    -- ids is enough for `materialize_irt_chain` to end. It returns the whole chain of letters from
    -- `start` to one that replies to none, each the message that the letter before it replies to,
    -- with no folded id twice; or it raises, and the way up comes to an id that the index does not
    -- have, or to a message that has no id, another id than the one asked for, a broken subject, or
    -- an id that is visited for the second time.
    pub materialize_irt_chain-IsWalked :
        (ids : List Text)
        → IsIndexed lib find ids
        → (fuel : ℕ) (start : Text) → length ids < fuel
        → ((chain : List Snapshot) × (materialize_irt_chain lib find fuel start ≡ some (ok chain))
            × IsChain start chain
            × (distinct (folded_ids chain) ≡ true))
          ⊎ ((e : Error) × (materialize_irt_chain lib find fuel start ≡ some (raise e))
              × IsStuck [] start e)
    unfolding materialize_irt_chain
    materialize_irt_chain-IsWalked ids indexed fuel start enough =
        let (r, h) = materialize_irt_chain-total lib find ids indexed fuel start enough in
        by_outcome r h (materialize_loop-IsWalked fuel [] start r h)
      where
        by_outcome :
            (r : Result (List Snapshot))
            → materialize_irt_chain lib find fuel start ≡ some r
            → IsWalked [] start r
            → ((chain : List Snapshot) × (materialize_irt_chain lib find fuel start
                  ≡ some (ok chain))
                × IsChain start chain
                × (distinct (folded_ids chain) ≡ true))
              ⊎ ((e : Error) × (materialize_irt_chain lib find fuel start ≡ some (raise e))
                  × IsStuck [] start e)
        by_outcome (ok chain) h (c, u, d) = inl (chain, h, c, d)
        by_outcome (raise e) h w = inr (e, h, w)
