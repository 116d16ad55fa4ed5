-- ===== src/Engine/Submit.antt =====
-- What a worker unit learns of its call: threlium/runners/engine_submit against the engine's
-- handler of requests.
use mathlib.Core.List.{reverse-append, reverse-reverse}
use threlium.Prelude.{
  ℕ, ◌≡◌, refl, sym, ap, ◌∙◌, true, false, ◌==◌, some, List, [], ◌∷◌, ◌++◌, any, is_empty, reverse,
  Result, ok, raise, Result-cases, inl, inr, Bool-cases,
}
use threlium.Prelude.Text.{Text, codes, strip, is_space, starts_with}
use threlium.Prelude.Strip.{parse_present_optional-stripped}
use threlium.Stage.Names.{FsmStage, value, ingress}
use threlium.Stage.Address.{MailLib, parse-rfc822_mailbox}
use threlium.Engine.Wire.{
  EngineWireRequest, EngineWireResponse, wire_ok, wire_error, WireLib, from_work_instance,
  from_notmuch_thread_attr, readline, read_wire_line, wire_line, decode_engine_wire_request,
  decode_engine_wire_response, serve, handle, submit_to_engine, exit_status, submit_main,
}

-- A JSON object on one line.
abbrev pub IsObject : Text → Type 0
IsObject json =
    (body : Text) × (json ≡ 123 ∷ (body ++ 125 ∷ [])) × (any (λ c. c == 10) body ≡ false)

-- What msgspec says of its JSON: it encodes a struct as an object on one line, reads back what it
-- has encoded, and does not read an error as an `ok`.
pub record WireLaws (lib : WireLib) : Type 0 where
  pub request_line : (r : EngineWireRequest) → IsObject (lib.encode_request r)
  pub response_line : (r : EngineWireResponse) → IsObject (lib.encode_response r)
  pub request_back : (r : EngineWireRequest) → lib.decode_request (lib.encode_request r) ≡ some r
  pub ok_back : lib.decodes_ok (lib.encode_response wire_ok) ≡ true
  pub error_is_not_ok : (m t : Text) → lib.decodes_ok (lib.encode_response (wire_error m t)) ≡ false
  pub error_back :
      (m t : Text) → lib.decode_error (lib.encode_response (wire_error m t)) ≡ some (m, t)

readline-line :
    (body : Text)
    → any (λ c. c == 10) body ≡ false
    → readline (body ++ 125 ∷ 10 ∷ []) ≡ body ++ 125 ∷ 10 ∷ []
unfolding readline
readline-line [] h = refl
readline-line (c ∷ body) h = elim (Bool-cases (c == 10)) [
  | inl newline ↦ let x = rw newline at h in cc
  | inr other ↦ rw other (ap (◌∷◌ c) (readline-line body (rw other at h)))
]

append_last : (body : Text) → (body ++ 125 ∷ []) ++ 10 ∷ [] ≡ body ++ 125 ∷ 10 ∷ []
append_last [] = refl
append_last (c ∷ body) = ap (◌∷◌ c) (append_last body)

strip-line : (body : Text) → strip (123 ∷ (body ++ 125 ∷ 10 ∷ [])) ≡ 123 ∷ (body ++ 125 ∷ [])
unfolding strip is_space
strip-line body = rw (reverse-append (123 ∷ body) (125 ∷ 10 ∷ [])) (
    ap reverse (sym (reverse-append (123 ∷ body) (125 ∷ [])))
    ∙ reverse-reverse (123 ∷ (body ++ 125 ∷ [])))

read_wire_line-wire_line : (json : Text) → IsObject json → read_wire_line (wire_line json) ≡ json
unfolding read_wire_line
read_wire_line-wire_line json (body, e, h) =
    rw (e, append_last body, readline-line body h) (strip-line body)

not_empty : (json : Text) → IsObject json → is_empty json ≡ false
not_empty json (body, e, h) = rw e refl

from_work_instance-value :
    (s : FsmStage) (c : ℕ) (tid : Text)
    → from_work_instance (value s ++ 58 ∷ c ∷ tid)
      ≡ ok (record { stage = value s; thread_id = c ∷ tid })
unfolding from_work_instance value
from_work_instance-value ingress c tid = refl
from_work_instance-value _ c tid = refl

from_notmuch_thread_attr-bare :
    (c : ℕ) (tid : Text)
    → strip (c ∷ tid) ≡ c ∷ tid
    → starts_with (codes "thread:") (c ∷ tid) ≡ false
    → from_notmuch_thread_attr (c ∷ tid) ≡ some (c ∷ tid)
unfolding from_notmuch_thread_attr
from_notmuch_thread_attr-bare c tid h k = rw (h, k) (parse_present_optional-stripped c tid h)

-- The exit status that says what became of a call.
abbrev pub status_of : Result (Unit {0}) → ℕ
status_of (ok done) = 0
status_of (raise e) = 1

module _ (lib : WireLib) (laws : WireLaws lib) where
  exchange_response :
      (r : EngineWireResponse)
      → decode_engine_wire_response lib (read_wire_line (wire_line (lib.encode_response r))) ≡ ok r
  unfolding decode_engine_wire_response
  exchange_response wire_ok =
      rw
        (
          read_wire_line-wire_line (lib.encode_response wire_ok) (laws.response_line wire_ok),
          not_empty (lib.encode_response wire_ok) (laws.response_line wire_ok),
          laws.ok_back,
        )
        refl
  exchange_response (wire_error m t) =
      rw
        (
          read_wire_line-wire_line (lib.encode_response (wire_error m t))
              (laws.response_line (wire_error m t)),
          not_empty (lib.encode_response (wire_error m t)) (laws.response_line (wire_error m t)),
          laws.error_is_not_ok m t,
          laws.error_back m t,
        )
        refl

  module _ (mail : MailLib) (process : FsmStage → Text → Result (Unit {0})) where
    serve-request :
        mail.lower (codes "localhost") ≡ codes "localhost"
        → (s : FsmStage) (c : ℕ) (tid : Text) → strip (c ∷ tid) ≡ c ∷ tid
        → starts_with (codes "thread:") (c ∷ tid) ≡ false
        → serve lib mail process
            (lib.encode_request (record { stage = value s; thread_id = c ∷ tid }))
          ≡ process s (c ∷ tid)
    unfolding serve decode_engine_wire_request
    serve-request low s c tid h k =
        let r : EngineWireRequest = record { stage = value s; thread_id = c ∷ tid } in
        rw
          (
            not_empty (lib.encode_request r) (laws.request_line r),
            laws.request_back r,
            (parse-rfc822_mailbox mail low s).1,
            from_notmuch_thread_attr-bare c tid h k,
          )
          refl

    handle-line :
        (json : Text)
        → IsObject json
        → handle lib mail process (wire_line json) ≡ elim (serve lib mail process json) [
          | ok done ↦ wire_line (lib.encode_response wire_ok)
          | raise e ↦
              wire_line (lib.encode_response (wire_error (lib.exception_text e) (lib.format_exc e)))
        ]
    unfolding handle
    handle-line json o = rw (read_wire_line-wire_line json o, not_empty json o) refl

    exit_status-handle :
        (s : FsmStage) (c : ℕ) (tid : Text)
        → (serve lib mail process
              (lib.encode_request (record { stage = value s; thread_id = c ∷ tid }))
            ≡ process s (c ∷ tid))
        → exit_status lib
            (λ stream. ok (handle lib mail process stream))
            (submit_to_engine lib
              (λ stream. ok (handle lib mail process stream))
              (record { stage = value s; thread_id = c ∷ tid }))
          ≡ ok (status_of (process s (c ∷ tid)))
    unfolding submit_to_engine exit_status
    exit_status-handle s c tid served =
        let r : EngineWireRequest = record { stage = value s; thread_id = c ∷ tid } in
        rw (handle-line (lib.encode_request r) (laws.request_line r), served)
          (elim (Result-cases (process s (c ∷ tid))) [
            | inl (done, e) ↦ rw (e, exchange_response wire_ok) refl
            | inr (x, e) ↦
                rw (e, exchange_response (wire_error (lib.exception_text x) (lib.format_exc x)))
                  refl
          ])

    -- If msgspec reads back on one line what it encodes and does not read an error as an `ok`, lower
    -- leaves localhost alone, a thread id is its own text without white space around it and without
    -- the prefix thread:, THRELIUM_HOME is set, and the socket gives the engine's answer, then a worker
    -- unit that is started for a stage and a thread exits with 0 exactly where
    -- process_thread_message returns for these two, and with 1 where it raises.
    pub submit_main-status :
        mail.lower (codes "localhost") ≡ codes "localhost"
        → (s : FsmStage) (c : ℕ) (tid : Text) → strip (c ∷ tid) ≡ c ∷ tid
        → starts_with (codes "thread:") (c ∷ tid) ≡ false
        → (program : Text) (rest : List Text) (h : ℕ) (home : Text)
        → submit_main lib
            (λ stream. ok (handle lib mail process stream))
            (program ∷ (value s ++ 58 ∷ c ∷ tid) ∷ rest)
            (some (h ∷ home))
          ≡ ok (status_of (process s (c ∷ tid)))
    unfolding submit_main
    submit_main-status low s c tid bare no_prefix program rest h home =
        rw (from_work_instance-value s c tid, submit_main)
          (exit_status-handle s c tid (serve-request low s c tid bare no_prefix))
