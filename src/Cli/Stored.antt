-- ===== src/Cli/Stored.antt =====
-- A payload that a stage hands on is the payload that the next stage reads.
use threlium.Prelude.{
  ◌≡◌, refl, sym, ap, ◌∙◌, false, none, some, Option, [], ◌∷◌, ◌++◌, is_empty, inl, inr, Bool-cases,
  some-injective, if◌then◌else◌,
}
use threlium.Prelude.Text.{Text, strip, is_space}
use threlium.Prelude.Strip.{strip-ends, strip-strip, parse-stripped}
use threlium.Prelude.Json.{obj, Fields}
use threlium.Stage.Address.{MailLib}
use threlium.Cli.Payload.{
  CliIntentPayload, CliLib, payload_json, normalized_cwd, parse_cli_intent_payload,
  cli_payload_as_json,
}
use threlium.Cli.Intent.{body_of}
use threlium.Cli.Exec.{ScopeConfig, ExecLib, execute, cli_exec_main}

-- What json and msgspec say of themselves: an object is written in braces, and the payload of a
-- command whose directory is stripped is read back.
pub record CliLaws (lib : CliLib) : Type 0 where
  pub braces :
      (fields : Fields) → (body : Text) × (lib.json_dumps (obj fields) ≡ 123 ∷ (body ++ 125 ∷ []))
  pub back :
      (cli : CliIntentPayload)
      → normalized_cwd cli.cwd ≡ cli.cwd
      → lib.decode_envelope (lib.json_dumps (obj (payload_json cli))) ≡ some cli

-- A payload as the parser gives it.
pub record IsParsed (cli : CliIntentPayload) : Type 0 where
  pub words : is_empty cli.argv ≡ false
  pub directory : normalized_cwd cli.cwd ≡ cli.cwd

normalized_cwd-again :
    (cwd : Option Text) → normalized_cwd (normalized_cwd cwd) ≡ normalized_cwd cwd
unfolding normalized_cwd
normalized_cwd-again none = refl
normalized_cwd-again (some cwd) = elim (Bool-cases (is_empty (strip cwd))) [
  | inl blank ↦ rw blank refl
  | inr there ↦ rw (there, strip-strip cwd, there) refl
]

pub parse_cli_intent_payload-IsParsed :
    (lib : CliLib) (text : Text) {cli : CliIntentPayload}
    → parse_cli_intent_payload lib text ≡ some cli
    → IsParsed cli
unfolding parse_cli_intent_payload
parse_cli_intent_payload-IsParsed lib text h = elim (Bool-cases (is_empty (strip text))) [
  | inl blank ↦ let x = rw blank at h in cc
  | inr there ↦ read (lib.decode_envelope (strip text)) (rw there at h)
]
  where
    read :
        (decoded : Option CliIntentPayload) {cli : CliIntentPayload}
        → (elim decoded as (λ _. Option CliIntentPayload) [
          | none ↦ none
          | some cli' ↦
              if is_empty cli'.argv
              then none
              else some (record cli' { cwd = normalized_cwd cli'.cwd })
        ])
          ≡ some cli
        → IsParsed cli
    read none k = cc
    read (some cli') k = elim (Bool-cases (is_empty cli'.argv)) [
      | inl no_words ↦ let x = rw no_words at k in cc
      | inr words ↦
          rw (← some-injective (rw words at k))
            (record { words = words; directory = normalized_cwd-again cli'.cwd })
    ]

-- The JSON of a payload, in its braces.
abbrev Braced : CliLib → CliIntentPayload → Type 0
Braced lib cli = (body : Text) × (cli_payload_as_json lib cli ≡ 123 ∷ (body ++ 125 ∷ []))

module _ (lib : CliLib) (laws : CliLaws lib) where
  json_braces : (cli : CliIntentPayload) → Braced lib cli
  unfolding cli_payload_as_json
  json_braces cli = laws.braces (payload_json cli)

  json_strip :
      (cli : CliIntentPayload) → strip (cli_payload_as_json lib cli) ≡ cli_payload_as_json lib cli
  unfolding is_space
  json_strip cli = let (body, e) = json_braces cli in rw e (strip-ends 123 125 body refl refl)

  pub body_of-json :
      (cli : CliIntentPayload) → body_of (cli_payload_as_json lib cli) ≡ cli_payload_as_json lib cli
  unfolding body_of
  body_of-json cli =
      let (body, e) = json_braces cli in
      let same : strip (123 ∷ (body ++ 125 ∷ [])) ≡ 123 ∷ (body ++ 125 ∷ []) =
        sym (ap strip e) ∙ json_strip cli ∙ e in
      rw (e, parse-stripped 123 (body ++ 125 ∷ []) same) refl

  not_blank : (cli : CliIntentPayload) → is_empty (cli_payload_as_json lib cli) ≡ false
  not_blank cli = let (body, e) = json_braces cli in rw e refl

  parse_cli_intent_payload-json :
      (cli : CliIntentPayload)
      → IsParsed cli
      → parse_cli_intent_payload lib (cli_payload_as_json lib cli) ≡ some cli
  unfolding parse_cli_intent_payload cli_payload_as_json
  parse_cli_intent_payload-json cli p =
      rw (json_strip cli, not_blank cli, laws.back cli p.directory, p.words, p.directory) refl

  module _ (mail : MailLib) (config : ScopeConfig) (exec : ExecLib) where
    -- cli_exec runs the payload that it is handed.
    pub cli_exec_main-body_of :
        (cli : CliIntentPayload)
        → IsParsed cli
        → cli_exec_main mail lib config exec (body_of (cli_payload_as_json lib cli))
          ≡ execute mail lib config exec cli
    unfolding cli_exec_main
    cli_exec_main-body_of cli p =
        rw (body_of-json cli, cli_exec_main, json_strip cli, parse_cli_intent_payload-json cli p)
          refl
