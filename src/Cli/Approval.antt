-- ===== src/Cli/Approval.antt =====
-- What stands behind a command that runs after its user has answered.
use threlium.Prelude.{
  ◌≡◌, refl, sym, ap, ◌∙◌, true, false, Option, none, some, List, [], ◌∷◌, ◌++◌, All, is_empty, inl,
  inr, Bool-cases, Result, ok, value_error, ◌>>=◌, >>=-eq-ok, ok-injective, some-injective,
}
use threlium.Prelude.Text.{Text, codes, strip}
use threlium.Prelude.Wire.{parse}
use threlium.Stage.Names.{cli_resume, cli_intent}
use threlium.Stage.Address.{MailLib}
use threlium.Irt.Snapshot.{Snapshot, is_addressed_to_fsm_stage}
use threlium.Cli.Payload.{
  CliIntentPayload, CliLib, parse_cli_intent_payload, cli_payload_as_json,
  cli_command_line_for_intent,
}
use threlium.Cli.Intent.{CliStep, to_cli_exec, to_enrich_fast, CliPrompts, body_of}
use threlium.Cli.Exec.{ScopeConfig, ExecLib, execute, cli_exec_main}
use threlium.Cli.Resume.{
  ConfirmCliHitlToolArgs, is_retried, invoke_with_bridge_retries, ResumeLib, require_fsm_message_id,
  find_loop, not_confirmed, intent_not_found, find_cli_intent_path, intent_text, decided,
  resume_with, cli_resume_main,
}
use threlium.Cli.Retry.{IsGiven, retry_loop-IsGiven}
use threlium.Cli.Stored.{CliLaws, parse_cli_intent_payload-IsParsed, cli_exec_main-body_of}

module _ (mail : MailLib) (lib : CliLib) (prompts : CliPrompts) (resume : ResumeLib) where
  -- A letter that is neither to cli_resume nor to cli_intent.
  abbrev pub IsBetween : Snapshot → Type 0
  IsBetween snap =
      (is_addressed_to_fsm_stage mail snap cli_resume ≡ false)
      × (is_addressed_to_fsm_stage mail snap cli_intent ≡ false)

  -- The nearest letter to cli_intent, with no letter to cli_resume before it.
  abbrev pub IsNearest : List Snapshot → Text → Type 0
  IsNearest snaps path =
      (before : List Snapshot) × (snap : Snapshot) × (after : List Snapshot) × (snaps
        ≡ before ++ snap ∷ after)
      × All IsBetween before
      × (is_addressed_to_fsm_stage mail snap cli_resume ≡ false)
      × (is_addressed_to_fsm_stage mail snap cli_intent ≡ true)
      × (snap.path ≡ path)

  find_loop-IsNearest :
      (snaps : List Snapshot) {path : Text}
      → find_loop mail lib prompts resume snaps ≡ ok (some path)
      → IsNearest snaps path
  unfolding find_loop
  find_loop-IsNearest [] h = cc
  find_loop-IsNearest (snap ∷ snaps) h =
      elim (Bool-cases (is_addressed_to_fsm_stage mail snap cli_resume)) [
        | inl barrier ↦ let x = rw barrier at h in cc
        | inr open_chain ↦ elim (Bool-cases (is_addressed_to_fsm_stage mail snap cli_intent)) [
          | inr other ↦
              let (before, found, after, split, between, barrier, intent, same) =
                find_loop-IsNearest snaps (rw (open_chain, other) at h) in
              (
                snap ∷ before,
                found,
                after,
                ap (◌∷◌ snap) split,
                ((open_chain, other), between),
                barrier,
                intent,
                same,
              )
          | inl intent ↦ elim (Bool-cases (resume.is_file snap.path)) [
            | inr missing ↦ let x = rw (open_chain, intent, missing) at h in cc
            | inl there ↦
                let same = rw (open_chain, intent, there) at h in
                ([], snap, snaps, refl, tt, open_chain, intent, some-injective (ok-injective same))
          ]
        ]
      ]

  -- The answer of the user has been read as a consent to the payload of the nearest intent.
  pub record IsConfirmed (message_id : Option Text) (system_text : Text) (cli : CliIntentPayload)
      : Type 0 where
    pub answered : is_empty (strip system_text) ≡ false
    pub inner : Text
    pub leaf : Snapshot
    pub snaps : List Snapshot
    pub path : Text
    pub stored : Text
    pub args : ConfirmCliHitlToolArgs
    pub is_inner : require_fsm_message_id message_id ≡ ok inner
    pub is_chain : resume.ancestors inner ≡ ok (leaf ∷ snaps)
    pub nearest : IsNearest snaps path
    pub is_stored : intent_text (resume.system_part_text_from_path path) ≡ ok stored
    pub is_payload : parse_cli_intent_payload lib stored ≡ some cli
    pub given :
        IsGiven
          (resume.classify (cli_command_line_for_intent lib cli) (strip system_text))
          is_retried
          0
          3
          args
    pub consent : args.confirmed ≡ true

  find_cli_intent_path-IsNearest :
      (chain : List Snapshot) {path : Text}
      → find_cli_intent_path mail lib prompts resume chain ≡ ok (some path)
      → (leaf : Snapshot) × (snaps : List Snapshot) × (chain ≡ leaf ∷ snaps) × IsNearest snaps path
  unfolding find_cli_intent_path
  find_cli_intent_path-IsNearest [] h = cc
  find_cli_intent_path-IsNearest (leaf ∷ snaps) h = (leaf, snaps, refl, find_loop-IsNearest snaps h)

  -- Only a consent goes on to cli_exec, with the payload that was asked about.
  decided-consent :
      (cli : CliIntentPayload) (args : ConfirmCliHitlToolArgs) {body : Text}
      → decided mail lib prompts resume cli args ≡ to_cli_exec body
      → (args.confirmed ≡ true) × (body_of (cli_payload_as_json lib cli) ≡ body)
  unfolding decided not_confirmed
  decided-consent cli args h = elim (Bool-cases args.confirmed) [
    | inl yes_it ↦ let x = rw yes_it at h in (yes_it, cc)
    | inr declined ↦ let x = rw declined at h in cc
  ]

  resume_with-consent :
      (user_reply text : Text) {body : Text}
      → resume_with mail lib prompts resume user_reply text ≡ ok (to_cli_exec body)
      → (cli : CliIntentPayload) × (args : ConfirmCliHitlToolArgs) × (parse_cli_intent_payload lib
            text
          ≡ some cli)
        × IsGiven
            (resume.classify (cli_command_line_for_intent lib cli) user_reply)
            is_retried
            0
            3
            args
        × (args.confirmed ≡ true)
        × (body_of (cli_payload_as_json lib cli) ≡ body)
  unfolding resume_with invoke_with_bridge_retries
  resume_with-consent user_reply text h = by_payload (parse_cli_intent_payload lib text) refl h
    where
      by_payload :
          (parsed : Option CliIntentPayload) {body : Text}
          → parse_cli_intent_payload lib text ≡ parsed
          → (elim parsed as (λ _. Result CliStep) [
            | none ↦ ok (
                to_enrich_fast (
                  parse (
                    some (
                      codes
                        "Threlium cli_resume: could not parse stored CLI intent JSON in thread."))))
            | some payload ↦
                invoke_with_bridge_retries
                  (resume.classify (cli_command_line_for_intent lib payload) user_reply)
                  is_retried
                  3
                >>= λ args. ok (decided mail lib prompts resume payload args)
          ])
            ≡ ok (to_cli_exec body)
          → (cli : CliIntentPayload) × (args : ConfirmCliHitlToolArgs) × (parse_cli_intent_payload
                lib text
              ≡ some cli)
            × IsGiven
                (resume.classify (cli_command_line_for_intent lib cli) user_reply)
                is_retried
                0
                3
                args
            × (args.confirmed ≡ true)
            × (body_of (cli_payload_as_json lib cli) ≡ body)
      by_payload none e k = cc
      by_payload (some cli) e k =
          let attempt = resume.classify (cli_command_line_for_intent lib cli) user_reply in
          let (args, c, rest) = >>=-eq-ok (invoke_with_bridge_retries attempt is_retried 3) _ k in
          let (yes_it, same) = decided-consent cli args (ok-injective rest) in
          (cli, args, e, retry_loop-IsGiven attempt is_retried 0 3 value_error c, yes_it, same)

  module _ (laws : CliLaws lib) (config : ScopeConfig) (exec : ExecLib) where
    -- If json writes an object in braces and msgspec reads a payload back, then a letter that
    -- cli_resume hands to cli_exec makes cli_exec run the payload of the nearest letter to cli_intent
    -- behind the reply, with no letter to cli_resume before it; the reply is not blank, and one of the
    -- first three attempts of the classifier, those before it having raised what is retried, has read
    -- it as a consent to the command line of that payload.
    pub cli_resume_main-IsConfirmed :
        (message_id : Option Text) (system_text : Text) {body : Text}
        → cli_resume_main mail lib prompts resume message_id system_text ≡ ok (to_cli_exec body)
        → (cli : CliIntentPayload) × IsConfirmed message_id system_text cli
          × (cli_exec_main mail lib config exec body ≡ execute mail lib config exec cli)
    unfolding cli_resume_main not_confirmed
    cli_resume_main-IsConfirmed message_id system_text {body} h =
        elim (Bool-cases (is_empty (strip system_text))) [
          | inl silent ↦ let x = rw silent at h in cc
          | inr answered ↦
              let (inner, is_inner, rest) =
                >>=-eq-ok (require_fsm_message_id message_id) _ (rw answered at h) in
              let (chain, is_chain, rest') = >>=-eq-ok (resume.ancestors inner) _ rest in
              let (found, f, rest'') =
                >>=-eq-ok (find_cli_intent_path mail lib prompts resume chain) _ rest' in
              by_path answered is_inner is_chain found f rest''
        ]
      where
        by_path :
            {inner : Text} {chain : List Snapshot}
            → is_empty (strip system_text) ≡ false
            → require_fsm_message_id message_id ≡ ok inner
            → resume.ancestors inner ≡ ok chain
            → (found : Option Text) → find_cli_intent_path mail lib prompts resume chain ≡ ok found
            → (elim found as (λ _. Result CliStep) [
              | none ↦ ok (to_enrich_fast (parse (some intent_not_found)))
              | some path ↦ intent_text (resume.system_part_text_from_path path) >>= λ text.
                  resume_with mail lib prompts resume (strip system_text) text
            ])
              ≡ ok (to_cli_exec body)
            → (cli : CliIntentPayload) × IsConfirmed message_id system_text cli
              × (cli_exec_main mail lib config exec body ≡ execute mail lib config exec cli)
        by_path answered is_inner is_chain none f k = cc
        by_path answered is_inner is_chain (some path) f k =
            let (leaf, snaps, split, near) = find_cli_intent_path-IsNearest _ f in
            let (stored, is_stored, rest) =
              >>=-eq-ok (intent_text (resume.system_part_text_from_path path)) _ k in
            let (cli, args, is_payload, given, consent, same) =
              resume_with-consent (strip system_text) stored rest in
            let parsed = parse_cli_intent_payload-IsParsed lib stored is_payload in
            (
              cli,
              record {
                answered = answered;
                inner = _;
                leaf = leaf;
                snaps = snaps;
                path = path;
                stored = stored;
                args = args;
                is_inner = is_inner;
                is_chain = is_chain ∙ ap ok split;
                nearest = near;
                is_stored = is_stored;
                is_payload = is_payload;
                given = given;
                consent = consent;
              },
              ap (cli_exec_main mail lib config exec) (sym same)
                  ∙ cli_exec_main-body_of lib laws mail config exec cli parsed,
            )
