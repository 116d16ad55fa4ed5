-- ===== src/Cli/Resumed.antt =====
-- When the reply of a user resumes a command, and with what letter.
use threlium.Prelude.{
  ℕ, ltb, ◌≤◌, ◌≡◌, ◌↔◌, refl, ap, Bool, true, false, not, Option, none, some, List, [], ◌∷◌,
  length, is_empty, Result, ok, raise_if, raise_if-ok, runtime_error, >>=-eq-ok, ok-injective, ◌∙◌,
  Option-cases, inl, inr, arith,
}
use threlium.Prelude.Int.{ℤ}
use threlium.Prelude.Text.{Text}
use threlium.Prelude.Wire.{parse_present_optional}
use threlium.Stage.Address.{MailLib}
use threlium.Hop.Line.{IntText}
use threlium.Irt.Chain.{NmMessage}
use threlium.Emit.Step.{Step, build_fsm_step_to_stage}
use threlium.Cli.Hitl.{HitlParentRouting, without_intent, with_intent, classify_ingress_parent}
use threlium.Cli.Question.{RepliesToQuestion, routing-RepliesToQuestion}
use threlium.Cli.Ingress.{
  IngressLetter, to_enrich, to_cli_resume, first_of, require_unique_threading_rfc822_headers,
  require_bridge_from_email, is_from_bridge, assert_bridge_input_has_no_user_query,
  system_part_text, preserved_subject, resume_step, emit_to_cli_resume, distilled, emit_of_routing,
  ingress_main,
}

-- A letter of a bridge, with no header for the thread twice, to which no stage has added a query.
abbrev pub IsFromUser : MailLib → IngressLetter → Type 0
IsFromUser mail msg =
    (length msg.in_reply_to ≤ 1)
    × (length msg.references ≤ 1)
    × (is_from_bridge mail msg ≡ true)
    × (msg.user_query_parts ≡ [])

unique-lengths :
    (msg : IngressLetter)
    → (require_unique_threading_rfc822_headers msg ≡ ok tt)
      ↔ ((length msg.in_reply_to ≤ 1) × (length msg.references ≤ 1))
unfolding require_unique_threading_rfc822_headers
unique-lengths msg = (there, λ h. rw (below _ h.0, below _ h.1) refl)
  where
    below : (n : ℕ) → n ≤ 1 → ltb 1 n ≡ false
    below n h = ground (arith, h)

    there :
        require_unique_threading_rfc822_headers msg ≡ ok tt
        → (length msg.in_reply_to ≤ 1) × (length msg.references ≤ 1)
    there h =
        let (u, a, b) = >>=-eq-ok (raise_if (ltb 1 (length msg.in_reply_to)) runtime_error) _ h in
        let first = raise_if-ok _ _ a in
        let second = raise_if-ok _ _ b in (ground (arith, first), ground (arith, second))

only_part :
    (msg : IngressLetter) (text : Text)
    → (system_part_text msg ≡ ok text) ↔ (msg.system_parts ≡ text ∷ [])
unfolding system_part_text
only_part msg text = (there msg.system_parts refl, λ e. rw e refl)
  where
    there :
        (parts : List Text)
        → msg.system_parts ≡ parts
        → system_part_text msg ≡ ok text
        → msg.system_parts ≡ text ∷ []
    there [] e h = let x = rw (system_part_text, e) at h in cc
    there (t ∷ []) e h = rw (e, ok-injective (rw (system_part_text, e) at h)) refl
    there (t ∷ u ∷ more) e h = let x = rw (system_part_text, e) at h in cc

module _ (mail : MailLib) (db_find : Text → Option NmMessage) (it : IntText) (budget_root : ℤ)
    (emit_bridge_distill_to_enrich : IngressLetter → Bool → Result Step) where
  -- The letter that resumes a command carries the text of the only `<system>` part.
  abbrev pub IsResumption : IngressLetter → Step → Type 0
  IsResumption msg letter =
      (text : Text) × (subject_line : Option Text) × (msg.system_parts ≡ text ∷ [])
      × (preserved_subject msg ≡ ok subject_line)
      × (build_fsm_step_to_stage it budget_root msg.headers msg.subject
            (resume_step text subject_line)
          ≡ ok letter)

  resumption :
      (msg : IngressLetter) (letter : Step)
      → is_from_bridge mail msg ≡ true
      → (emit_to_cli_resume mail db_find it budget_root emit_bridge_distill_to_enrich msg
          ≡ ok letter)
        ↔ IsResumption msg letter
  unfolding emit_to_cli_resume require_bridge_from_email
  resumption msg letter near = (there, back)
    where
      there :
          emit_to_cli_resume mail db_find it budget_root emit_bridge_distill_to_enrich msg
            ≡ ok letter
          → IsResumption msg letter
      there h =
          let (u, a, h1) = >>=-eq-ok (require_bridge_from_email mail msg) _ h in
          let (text, b, h2) = >>=-eq-ok (system_part_text msg) _ h1 in
          let (subject_line, c, h3) = >>=-eq-ok (preserved_subject msg) _ h2 in
          (text, subject_line, (only_part msg text).0 b, c, h3)

      back :
          IsResumption msg letter
          → emit_to_cli_resume mail db_find it budget_root emit_bridge_distill_to_enrich msg
            ≡ ok letter
      back (text, subject_line, e, c, b) =
          rw (emit_to_cli_resume, require_bridge_from_email, near, (only_part msg text).1 e, c, b)
            refl

  -- The checks of `main` pass exactly on letters of a user.
  checks-IsFromUser :
      (msg : IngressLetter)
      → ((require_unique_threading_rfc822_headers msg ≡ ok tt)
          × (require_bridge_from_email mail msg ≡ ok tt)
          × (assert_bridge_input_has_no_user_query msg ≡ ok tt))
        ↔ IsFromUser mail msg
  unfolding require_bridge_from_email assert_bridge_input_has_no_user_query
  checks-IsFromUser msg = (there, back)
    where
      none_given : (parts : List Text) → not (is_empty parts) ≡ false → parts ≡ []
      none_given [] h = refl
      none_given (p ∷ parts) h = cc

      is_near : (b : Bool) → not b ≡ false → b ≡ true
      is_near true h = refl
      is_near false h = cc

      there :
          (require_unique_threading_rfc822_headers msg ≡ ok tt)
            × (require_bridge_from_email mail msg ≡ ok tt)
            × (assert_bridge_input_has_no_user_query msg ≡ ok tt)
          → IsFromUser mail msg
      there (a, b, c) =
          let (x, y) = (unique-lengths msg).0 a in
          (x, y, is_near _ (raise_if-ok _ _ b), none_given _ (raise_if-ok _ _ c))

      back :
          IsFromUser mail msg
          → (require_unique_threading_rfc822_headers msg ≡ ok tt)
            × (require_bridge_from_email mail msg ≡ ok tt)
            × (assert_bridge_input_has_no_user_query msg ≡ ok tt)
      back (x, y, near, empty) = ((unique-lengths msg).1 (x, y), rw near refl, rw empty refl)

  distilled-to_enrich :
      (msg : IngressLetter) (orphan : Bool) (letter : Step)
      → distilled mail db_find it budget_root emit_bridge_distill_to_enrich msg orphan
        ≡ ok (to_cli_resume letter)
      → ⊥
  unfolding distilled
  distilled-to_enrich msg orphan letter h =
      let (l, a, b) = >>=-eq-ok (emit_bridge_distill_to_enrich msg orphan) _ h in
      let apart : to_enrich l ≡ to_cli_resume letter = ok-injective b in cc

  routed :
      (msg : IngressLetter) (letter : Step) (routing : Option HitlParentRouting)
      → emit_of_routing mail db_find it budget_root emit_bridge_distill_to_enrich msg routing
        ≡ ok (to_cli_resume letter)
      → (routing ≡ some with_intent)
        × (emit_to_cli_resume mail db_find it budget_root emit_bridge_distill_to_enrich msg
            ≡ ok letter)
  unfolding emit_of_routing
  routed msg letter none h = absurd (distilled-to_enrich msg true letter h)
  routed msg letter (some without_intent) h = absurd (distilled-to_enrich msg false letter h)
  routed msg letter (some with_intent) h =
      let (l, a, b) =
        >>=-eq-ok (emit_to_cli_resume mail db_find it budget_root emit_bridge_distill_to_enrich msg)
          _ h in
      let same : to_cli_resume l ≡ to_cli_resume letter = ok-injective b in
      let is : l ≡ letter = cc in (refl, a ∙ ap ok is)

  -- main of ingress sends a letter to cli_resume exactly where the incoming letter is from a
  -- bridge, has no second In-Reply-To or References header and no user query; it replies to a
  -- letter of the index that is a question of cli_hitl_out, or has one at most four letters above
  -- it with no letter before it that is from a stage outside of the questions; it has one system
  -- part and a subject without a line break inside; and the letter is the one that the builder of
  -- steps makes, without an error, of the stripped text of that part and that subject.
  pub ingress_main-to_cli_resume :
      (msg : IngressLetter) (letter : Step)
      → (ingress_main mail db_find it budget_root emit_bridge_distill_to_enrich msg
          ≡ ok (to_cli_resume letter))
        ↔ (IsFromUser mail msg
            × RepliesToQuestion mail db_find (first_of msg.in_reply_to)
            × IsResumption msg letter)
  unfolding ingress_main emit_of_routing
  ingress_main-to_cli_resume msg letter = (there, back)
    where
      there :
          ingress_main mail db_find it budget_root emit_bridge_distill_to_enrich msg
            ≡ ok (to_cli_resume letter)
          → IsFromUser mail msg
            × RepliesToQuestion mail db_find (first_of msg.in_reply_to)
            × IsResumption msg letter
      there h =
          let (u, a, h1) = >>=-eq-ok (require_unique_threading_rfc822_headers msg) _ h in
          let (v, b, h2) = >>=-eq-ok (require_bridge_from_email mail msg) _ h1 in
          let (w, c, h3) = >>=-eq-ok (assert_bridge_input_has_no_user_query msg) _ h2 in
          let checked = (checks-IsFromUser msg).0 (a, b, c) in
          elim (Option-cases (parse_present_optional (first_of msg.in_reply_to))) [
            | inl e ↦ absurd (distilled-to_enrich msg false letter (rw e at h3))
            | inr (irt_wire, e) ↦
                let (routing, r, h4) =
                  >>=-eq-ok (classify_ingress_parent mail db_find irt_wire) _ (rw e at h3) in
                let (is, emitted) = routed msg letter routing h4 in
                (
                  checked,
                  (routing-RepliesToQuestion mail db_find (first_of msg.in_reply_to)).0
                      (irt_wire, e, r ∙ ap ok is),
                  (resumption msg letter checked.2).0 emitted,
                )
          ]

      back :
          IsFromUser mail msg
            × RepliesToQuestion mail db_find (first_of msg.in_reply_to)
            × IsResumption msg letter
          → ingress_main mail db_find it budget_root emit_bridge_distill_to_enrich msg
            ≡ ok (to_cli_resume letter)
      back (checked, asked, resumes) =
          let (a, b, c) = (checks-IsFromUser msg).1 checked in
          let (irt_wire, e, r) =
            (routing-RepliesToQuestion mail db_find (first_of msg.in_reply_to)).1 asked in
          let emitted = (resumption msg letter checked.2).1 resumes in
          rw (ingress_main, a, b, c, e, r, emit_of_routing, emitted) refl
