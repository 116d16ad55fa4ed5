-- ===== src/Cli/TestCodec.antt =====
-- A codec of payloads for the tests: a text is written behind its length, and a list behind the
-- number of its texts.
use mathlib.Core.List.{append_assoc}
use threlium.Prelude.{
  ℕ, zero, suc, ◌≡◌, refl, ap, ◌∙◌, Bool, true, false, Option, none, some, List, [], ◌∷◌, ◌++◌,
  length, take, drop, if◌then◌else◌,
}
use threlium.Prelude.Text.{Text, codes, text_eq, strip}
use threlium.Prelude.Json.{Json, str, scalar, arr, obj, Items, nil, cons, Fields, end, field}
use threlium.Cli.Payload.{CliIntentPayload, CliLib, texts_json, payload_json, normalized_cwd}
use threlium.Cli.Stored.{CliLaws}

unfoldable pub write_texts : List Text → Text
write_texts [] = []
write_texts (t ∷ ts) = length t ∷ (t ++ write_texts ts)

unfoldable pub read_texts : ℕ → Text → List Text × Text
read_texts zero s = ([], s)
read_texts (suc n) [] = ([], [])
read_texts (suc n) (k ∷ s) = let (ts, rest) = read_texts n (drop k s) in (take k s ∷ ts, rest)

take-length : (t s : Text) → take (length t) (t ++ s) ≡ t
take-length [] s = refl
take-length (c ∷ t) s = ap (◌∷◌ c) (take-length t s)

drop-length : (t s : Text) → drop (length t) (t ++ s) ≡ s
drop-length [] s = refl
drop-length (c ∷ t) s = drop-length t s

read_texts-write_texts :
    (ts : List Text) (s : Text) → read_texts (length ts) (write_texts ts ++ s) ≡ (ts, s)
unfolding read_texts write_texts
read_texts-write_texts [] s = refl
read_texts-write_texts (t ∷ ts) s =
    rw
      (
        append_assoc t (write_texts ts) s,
        take-length t (write_texts ts ++ s),
        drop-length t (write_texts ts ++ s),
        read_texts-write_texts ts s,
      )
      refl

unfoldable pub texts_of : Items → List Text
texts_of nil = []
texts_of (cons (str t) items) = t ∷ texts_of items
texts_of (cons _ items) = texts_of items

texts_of-texts_json : (ts : List Text) → texts_of (texts_json ts) ≡ ts
unfolding texts_of
texts_of-texts_json [] = refl
texts_of-texts_json (t ∷ ts) = ap (◌∷◌ t) (texts_of-texts_json ts)

abbrev cwd_texts : Fields → List Text
cwd_texts (field k (str cwd) end) = cwd ∷ []
cwd_texts _ = []

abbrev write_payload : ℕ → List Text → List Text → Text
write_payload root cwd argv =
    root ∷ length cwd ∷ (write_texts cwd ++ length argv ∷ write_texts argv)

unfoldable pub payload_body : Fields → Text
unfolding text_eq
payload_body (field _ (obj (field _ (arr argv) (field _ (scalar root) rest))) end) =
    write_payload (if text_eq root (codes "True") then 1 else 0) (cwd_texts rest) (texts_of argv)
payload_body _ = []

unfoldable pub dumps : Json → Text
unfolding payload_body
dumps (obj fields) = 123 ∷ (payload_body fields ++ 125 ∷ [])
dumps _ = []

abbrev is_set : ℕ → Bool
is_set zero = false
is_set (suc n) = true

abbrev first_of : List Text → Option Text
first_of [] = none
first_of (t ∷ ts) = some t

abbrev payload_of : ℕ → List Text × Text → Option CliIntentPayload
payload_of root (cwd, []) = none
payload_of root (cwd, m ∷ s) =
    some (record { argv = (read_texts m s).0; cwd = first_of cwd; privileged = is_set root })

unfoldable pub read_payload : Text → Option CliIntentPayload
read_payload (brace ∷ root ∷ n ∷ s) = payload_of root (read_texts n s)
read_payload _ = none

abbrev pub codec : CliLib
codec = record {
  decode_envelope = read_payload;
  json_dumps = dumps;
  quote = λ w. w;
  shlex_join = λ ws. [];
  basename = λ w. w;
}

read_payload-write :
    (root : ℕ) (cwd argv : List Text)
    → read_payload (123 ∷ (write_payload root cwd argv ++ 125 ∷ []))
      ≡ some (record { argv = argv; cwd = first_of cwd; privileged = is_set root })
unfolding read_payload
read_payload-write root cwd argv =
    rw
      (
        append_assoc (write_texts cwd) (length argv ∷ write_texts argv) (125 ∷ []),
        read_payload,
        read_texts-write_texts cwd (length argv ∷ (write_texts argv ++ 125 ∷ [])),
        read_texts-write_texts argv (125 ∷ []),
      )
      refl

with_argv : (cwd : Option Text) (root : Bool) (argv : List Text) → Option CliIntentPayload
with_argv cwd root argv = some (record { argv = argv; cwd = cwd; privileged = root })

codec-back :
    (argv : List Text) (cwd : Option Text) (root : Bool)
    → normalized_cwd cwd ≡ cwd
    → read_payload
        (dumps (obj (payload_json (record { argv = argv; cwd = cwd; privileged = root }))))
      ≡ some (record { argv = argv; cwd = cwd; privileged = root })
unfolding dumps payload_json normalized_cwd strip text_eq with_argv
codec-back argv none true h =
    read_payload-write 1 [] (texts_of (texts_json argv))
    ∙ ap (with_argv none true) (texts_of-texts_json argv)
codec-back argv none false h =
    read_payload-write 0 [] (texts_of (texts_json argv))
    ∙ ap (with_argv none false) (texts_of-texts_json argv)
codec-back argv (some []) root h = cc
codec-back argv (some (c ∷ cwd)) true h =
    read_payload-write 1 ((c ∷ cwd) ∷ []) (texts_of (texts_json argv))
    ∙ ap (with_argv (some (c ∷ cwd)) true) (texts_of-texts_json argv)
codec-back argv (some (c ∷ cwd)) false h =
    read_payload-write 0 ((c ∷ cwd) ∷ []) (texts_of (texts_json argv))
    ∙ ap (with_argv (some (c ∷ cwd)) false) (texts_of-texts_json argv)

pub codec-CliLaws : CliLaws codec
unfolding dumps
codec-CliLaws = record {
  braces = λ fields. (payload_body fields, refl);
  back = λ cli. codec-back cli.argv cli.cwd cli.privileged;
}
