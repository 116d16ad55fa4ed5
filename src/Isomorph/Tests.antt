-- ===== src/Isomorph/Tests.antt =====
-- A turn of a client, its answer, and the turn behind it.
use threlium.Prelude.{
  ℕ, zero, suc, ◌≡◌, refl, ap, false, ◌||◌, ◌==◌, Option, none, some, [], ◌∷◌, ◌++◌, any, ok,
  length,
}
use threlium.Prelude.Int.{pos}
use threlium.Prelude.Text.{Text, codes, text_eq, strip, is_space}
use threlium.Prelude.Json.{Json, str, arr, obj, nil, cons, Fields, end, field, get_or_null, is_text}
use threlium.Irt.Snapshot.{Snapshot}
use threlium.Route.Wire.{RouteLib}
use threlium.Invisible.Codec.{encode_mid_safe}
use threlium.Isomorph.Mid.{MidLib}
use threlium.Isomorph.MidBack.{MidLaws}
use threlium.Isomorph.History.{
  openai_chat_completions, parse_history, msg_of, content_of, last_assistant, msgs_of, render_body,
}
use threlium.Isomorph.Egress.{Egressed, egress_isomorph_main}
use threlium.Isomorph.Continuity.{append_items, parse_history-answer}

-- A snowflake is written as so many letters.
letters_b : ℕ → Text
letters_b zero = []
letters_b (suc n) = 98 ∷ letters_b n

length-letters_b : (n : ℕ) → length (letters_b n) ≡ n
unfolding letters_b
length-letters_b zero = refl
length-letters_b (suc n) = ap suc (length-letters_b n)

letters_b-plain : (n : ℕ) → any (λ d. d == 60 || d == 62 || d == 64) (letters_b n) ≡ false
unfolding letters_b
letters_b-plain zero = refl
letters_b-plain (suc n) = letters_b-plain n

unary_of : Text → Option ℕ
unary_of [] = none
unary_of (c ∷ s) = some (length s)

abbrev unary : MidLib
unary = record {
  snowflake_left = λ n. 97 ∷ letters_b n;
  snowflake_of_left = unary_of;
  content_left = λ h. h;
  ingress_json = λ parent tail. parent ++ tail;
  sha256_hex = λ s. s;
}

unary-MidLaws : MidLaws unary
unfolding unary_of is_space
unary-MidLaws = record {
  left_head = λ n. (97, letters_b n, refl, refl);
  left_plain = letters_b-plain;
  left_back = λ n. ap some (length-letters_b n);
}

abbrev routes : RouteLib
routes = record {
  decode_base62 = λ t. ok t;
  decode_json = λ t. some (obj (field (codes "channel") (str (codes "isomorph")) end));
  decode_email = λ norm. none;
  decode_telegram = λ norm. none;
  decode_matrix = λ norm. none;
  decode_isomorph = λ norm. some (record {
    channel = codes "isomorph";
    api_surface = codes "openai_chat_completions";
    model = codes "m";
    v = pos 1;
    stream = false;
  });
}

abbrev turn : Snapshot
turn = record {
  message_id_inner = codes "t";
  path = codes "p";
  tags = codes "route" ∷ [];
  header_from = none;
  header_to = none;
  header_route = some (codes "w");
  header_references = none;
  header_in_reply_to = none;
  header_subject = none;
}

abbrev out : Egressed
out = record {
  archived = some (codes "<abbb@localhost>");
  glue_mid = codes "<abbb@localhost>";
  payload = record {
    ingress_mid = codes "t";
    api_surface = codes "openai_chat_completions";
    finish_reason = codes "stop";
    model = codes "m";
    text = 104 ∷ 105 ∷ 65529 ∷ 8203 ∷ 8288 ∷ [];
  };
}

first_answer :
    egress_isomorph_main unary routes
      (λ start. ok (turn ∷ []))
      (λ mid. ok tt)
      (some (codes "<e>"))
      (codes " hi ")
      none
      3
    ≡ ok out
unfolding egress_isomorph_main letters_b get_or_null is_text text_eq strip encode_mid_safe
first_answer = refl

abbrev said : Text → Text → Json
said role text = obj (field (codes "role") (str role) (field (codes "content") (str text) end))

abbrev answered : Fields
answered =
    field (codes "role") (str (codes "assistant"))
      (field (codes "content") (str out.payload.text) end)

abbrev repr : Json → Text
repr v = []

abbrev request : Fields
request =
    field (codes "messages")
      (arr (
        append_items (cons (said (codes "user") (codes "hello")) nil)
          (cons (obj answered) (cons (said (codes "user") (codes "and then?")) nil))))
      end

abbrev tail_text : Text
tail_text = render_body (msgs_of repr (cons (said (codes "user") (codes "and then?")) nil))

parse_history-answer_example :
    parse_history unary repr openai_chat_completions request
    ≡ ok (record { in_reply_to = some (codes "<abbb@localhost>"); tail_body = tail_text })
unfolding msg_of content_of msgs_of last_assistant get_or_null text_eq strip
parse_history-answer_example =
    parse_history-answer unary unary-MidLaws routes (λ start. ok (turn ∷ [])) (λ mid. ok tt)
      (some (codes "<e>")) (codes " hi ") none 3 tt first_answer repr openai_chat_completions
      request (cons (said (codes "user") (codes "hello")) nil)
      (cons (said (codes "user") (codes "and then?")) nil) answered refl refl refl refl

tail_is : tail_text ≡ codes "[user] and then?"
unfolding render_body msgs_of get_or_null text_eq
tail_is = refl
