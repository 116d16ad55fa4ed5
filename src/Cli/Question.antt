-- ===== src/Cli/Question.antt =====
-- A letter is routed to cli_resume exactly where it replies to a question of cli_hitl_out.
use threlium.Prelude.{
  ℕ, zero, suc, ◌<◌, ◌≡◌, ◌↔◌, refl, true, false, Option, none, some, any, inl, inr, Bool-cases,
  arith, ok, ok-injective, some-injective, Option-cases,
}
use threlium.Prelude.Text.{Text}
use threlium.Prelude.Wire.{parse_present_optional}
use threlium.Stage.Names.{cli_hitl_out}
use threlium.Stage.Address.{MailLib}
use threlium.Irt.Snapshot.{from_optional_raw}
use threlium.Irt.Chain.{NmMessage}
use threlium.Cli.Hitl.{
  HitlParentRouting, without_intent, with_intent, max_hitl_walk_depth, non_hitl_stages,
  message_sent_from, parent_message, hitl_loop, classify_hitl_parent, classify_ingress_parent,
}

module _ (mail : MailLib) (db_find : Text → Option NmMessage) where
  -- A letter that the walk goes on from: neither a question nor of a stage that ends it.
  abbrev pub IsPassed : NmMessage → Type 0
  IsPassed m =
      (message_sent_from mail db_find m cli_hitl_out ≡ false)
      × (any (message_sent_from mail db_find m) non_hitl_stages ≡ false)

  -- So many letters up from a letter stands another, and those below it are passed.
  pub data Above : ℕ → NmMessage → NmMessage → Type 0 where
    at_itself : (m : NmMessage) → Above 0 m m
    one_up :
        (k : ℕ) (m next top : NmMessage)
        → IsPassed m
        → parent_message mail db_find m ≡ some next
        → Above k next top
        → Above (suc k) m top

  -- A question of cli_hitl_out stands less than so many letters up.
  abbrev pub IsQuestion : ℕ → NmMessage → Type 0
  IsQuestion n m =
      (k : ℕ) × (top : NmMessage) × (k < n)
      × Above k m top
      × (message_sent_from mail db_find top cli_hitl_out ≡ true)

  loop-finds : (n : ℕ) (m : NmMessage) → hitl_loop mail db_find n m ≡ with_intent → IsQuestion n m
  unfolding hitl_loop
  loop-finds zero m h = cc
  loop-finds (suc n) m h = elim (Bool-cases (message_sent_from mail db_find m cli_hitl_out)) [
    | inl asked ↦ (0, m, omega arith, at_itself m, asked)
    | inr other ↦ elim (Bool-cases (any (message_sent_from mail db_find m) non_hitl_stages)) [
      | inl ends ↦ let x = rw (other, ends) at h in cc
      | inr passed ↦
          up (λ next. loop-finds n next) (other, passed) (parent_message mail db_find m) refl
            (rw (other, passed) at h)
    ]
  ]
    where
      up :
          ((next : NmMessage) → hitl_loop mail db_find n next ≡ with_intent → IsQuestion n next)
          → IsPassed m
          → (parent : Option NmMessage) → parent_message mail db_find m ≡ parent
          → (elim parent as (λ _. HitlParentRouting) [
            | none ↦ without_intent
            | some next_msg ↦ hitl_loop mail db_find n next_msg
          ])
            ≡ with_intent
          → IsQuestion (suc n) m
      up rest p none e k = cc
      up rest p (some next) e k =
          let (j, top, below, above, asked) = rest next k in
          (suc j, top, omega arith, one_up j m next top p e above, asked)

  question-found :
      (n : ℕ) (m top : NmMessage) (k : ℕ)
      → k < n
      → Above k m top
      → message_sent_from mail db_find top cli_hitl_out ≡ true
      → hitl_loop mail db_find n m ≡ with_intent
  unfolding hitl_loop
  question-found zero m top k h above asked = absurd (omega arith)
  question-found (suc n) _ _ _ h (at_itself m) asked = rw asked refl
  question-found (suc n) _ _ _ h (one_up k m next top p e above) asked =
      rw (p.0, p.1, e) (question-found n next top k (omega arith) above asked)

  -- The letter replies to a letter of the index, and a question stands less than five letters above
  -- it, or is that letter.
  abbrev pub RepliesToQuestion : Option Text → Type 0
  RepliesToQuestion in_reply_to =
      (irt_wire : Text) × (inner : Text) × (parent : NmMessage) × (parse_present_optional
          in_reply_to
        ≡ some irt_wire)
      × (from_optional_raw (some irt_wire) ≡ some inner)
      × (db_find inner ≡ some parent)
      × IsQuestion max_hitl_walk_depth parent

  routing-finds :
      (irt_wire : Text)
      → classify_ingress_parent mail db_find irt_wire ≡ ok (some with_intent)
      → (inner : Text) × (parent : NmMessage) × (from_optional_raw (some irt_wire) ≡ some inner)
        × (db_find inner ≡ some parent)
        × IsQuestion max_hitl_walk_depth parent
  unfolding classify_ingress_parent classify_hitl_parent
  routing-finds irt_wire h = elim (Option-cases (from_optional_raw (some irt_wire))) [
    | inl e ↦ let x = rw (classify_ingress_parent, e) at h in cc
    | inr (inner, e) ↦ elim (Option-cases (db_find inner)) [
      | inl f ↦ let x = ok-injective (rw (classify_ingress_parent, e, f) at h) in cc
      | inr (parent, f) ↦
          let asked = some-injective (ok-injective (rw (classify_ingress_parent, e, f) at h)) in
          (inner, parent, e, f, loop-finds max_hitl_walk_depth parent asked)
    ]
  ]

  -- A reply with the header is routed to cli_resume exactly where it replies to a question.
  pub routing-RepliesToQuestion :
      (in_reply_to : Option Text)
      → ((irt_wire : Text) × (parse_present_optional in_reply_to ≡ some irt_wire)
          × (classify_ingress_parent mail db_find irt_wire ≡ ok (some with_intent)))
        ↔ RepliesToQuestion in_reply_to
  unfolding classify_ingress_parent classify_hitl_parent
  routing-RepliesToQuestion in_reply_to = (there, back)
    where
      there :
          (irt_wire : Text) × (parse_present_optional in_reply_to ≡ some irt_wire)
            × (classify_ingress_parent mail db_find irt_wire ≡ ok (some with_intent))
          → RepliesToQuestion in_reply_to
      there (irt_wire, e, c) =
          let (inner, parent, i, f, q) = routing-finds irt_wire c in
          (irt_wire, inner, parent, e, i, f, q)

      back :
          RepliesToQuestion in_reply_to
          → (irt_wire : Text) × (parse_present_optional in_reply_to ≡ some irt_wire)
            × (classify_ingress_parent mail db_find irt_wire ≡ ok (some with_intent))
      back (irt_wire, inner, parent, e, i, f, (k, top, below, above, asked)) = (
        irt_wire,
        e,
        rw
            (
              classify_ingress_parent,
              i,
              f,
              classify_hitl_parent,
              question-found 5 parent top k below above asked,
            )
            refl,
      )
