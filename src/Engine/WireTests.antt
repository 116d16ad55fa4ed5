-- ===== src/Engine/WireTests.antt =====
-- A worker unit against the engine's handler, over a codec that shifts code points to make room for
-- its separators.
use mathlib.Core.List.{append_assoc}
use threlium.Prelude.{
  ◌+◌, ◌-◌, ◌≡◌, refl, ap, false, ◌==◌, some, [], ◌∷◌, ◌++◌, any, if◌then◌else◌, Result, ok, raise,
  runtime_error, arith,
}
use threlium.Prelude.Text.{Text, codes, text_eq, strip, starts_with}
use threlium.Stage.Names.{FsmStage, reasoning, value}
use threlium.Stage.Address.{MailLib}
use threlium.Engine.Wire.{wire_ok, wire_error, WireLib, handle, submit_main}
use threlium.Engine.Submit.{IsObject, WireLaws, submit_main-status}

abbrev plain_mail : MailLib
plain_mail = record { lower = λ t. t; casefold = λ t. t; getaddresses = λ t. t ∷ [] }

shift : Text → Text
shift [] = []
shift (c ∷ s) = (c + 11) ∷ shift s

first_field : Text → Text
first_field [] = []
first_field (c ∷ s) = if c == 1 then [] else (c - 11) ∷ first_field s

behind_field : Text → Text
behind_field [] = []
behind_field (c ∷ s) = if c == 1 then s else behind_field s

last_field : Text → Text
last_field [] = []
last_field (c ∷ []) = []
last_field (c ∷ d ∷ s) = (c - 11) ∷ last_field (d ∷ s)

pack : Text → Text → Text
pack a b = 123 ∷ ((shift a ++ 1 ∷ shift b) ++ 125 ∷ [])

unpack : Text → Text × Text
unpack [] = ([], [])
unpack (c ∷ s) = (first_field s, last_field (behind_field s))

abbrev shifting : WireLib
shifting = record {
  encode_request = λ r. pack r.stage r.thread_id;
  encode_response = elim [ wire_ok ↦ 123 ∷ 125 ∷ [] | wire_error m t ↦ pack m t ];
  decode_request = λ line. some (record { stage = (unpack line).0; thread_id = (unpack line).1 });
  decodes_ok = λ line. text_eq line (123 ∷ 125 ∷ []);
  decode_error = λ line. some (unpack line);
  exception_text = λ e. [];
  format_exc = λ e. [];
}

first_field-shift : (a s : Text) → first_field (shift a ++ 1 ∷ s) ≡ a
unfolding first_field shift
first_field-shift [] s = refl
first_field-shift (c ∷ a) s = ground (arith, first_field-shift a s)

behind_field-shift : (a s : Text) → behind_field (shift a ++ 1 ∷ s) ≡ s
unfolding behind_field shift
behind_field-shift [] s = refl
behind_field-shift (c ∷ a) s = ground (arith, behind_field-shift a s)

last_field-shift : (b : Text) → last_field (shift b ++ 125 ∷ []) ≡ b
unfolding last_field shift
last_field-shift [] = refl
last_field-shift (c ∷ []) = ground arith
last_field-shift (c ∷ d ∷ b) = ground (arith, last_field-shift (d ∷ b))

unpack-pack : (a b : Text) → unpack (pack a b) ≡ (a, b)
unfolding unpack pack
unpack-pack a b =
    rw
      (
        append_assoc (shift a) (1 ∷ shift b) (125 ∷ []),
        first_field-shift a (shift b ++ 125 ∷ []),
        behind_field-shift a (shift b ++ 125 ∷ []),
        last_field-shift b,
      )
      refl

no_newline : (a b : Text) → any (λ c. c == 10) (shift a ++ 1 ∷ shift b) ≡ false
unfolding shift
no_newline [] [] = refl
no_newline [] (c ∷ b) = ground (arith, no_newline [] b)
no_newline (c ∷ a) b = ground (arith, no_newline a b)

pack-IsObject : (a b : Text) → IsObject (pack a b)
unfolding pack
pack-IsObject a b = (shift a ++ 1 ∷ shift b, refl, no_newline a b)

pack-not_ok : (a b : Text) → text_eq (pack a b) (123 ∷ 125 ∷ []) ≡ false
unfolding pack text_eq shift
pack-not_ok [] b = refl
pack-not_ok (c ∷ []) b = ground arith
pack-not_ok (c ∷ d ∷ a) b = ground arith

shifting-WireLaws : WireLaws shifting
unfolding text_eq
shifting-WireLaws = record {
  request_line = λ r. pack-IsObject r.stage r.thread_id;
  response_line = elim [ wire_ok ↦ ([], refl, refl) | wire_error m t ↦ pack-IsObject m t ];
  request_back = λ r. rw (unpack-pack r.stage r.thread_id) refl;
  ok_back = refl;
  error_is_not_ok = pack-not_ok;
  error_back = λ m t. ap some (unpack-pack m t);
}

-- The call for one thread returns, any other raises.
abbrev one_thread : FsmStage → Text → Result (Unit {0})
one_thread stage scope = if text_eq scope (codes "7") then ok tt else raise runtime_error

submit_main-status_example :
    submit_main shifting
      (λ stream. ok (handle shifting plain_mail one_thread stream))
      (codes "engine_submit" ∷ codes "reasoning:8" ∷ [])
      (some (codes "/home"))
    ≡ ok 1
unfolding value text_eq strip starts_with
submit_main-status_example =
    submit_main-status shifting shifting-WireLaws plain_mail one_thread refl reasoning b'8' [] refl
      refl (codes "engine_submit") [] b'/' (codes "home")
