-- ===== src/Isomorph/Continuity.antt =====
-- The next turn of a client is put behind the answer that it was given.
use mathlib.Core.List.{append_assoc}
use threlium.Prelude.{
  ℕ, ◌≡◌, refl, sym, ap, ◌∙◌, Option, none, some, List, [], ◌∷◌, ◌++◌, Result, ok, raise,
  runtime_error, >>=-eq-ok, ok-injective,
}
use threlium.Prelude.Text.{Text, codes, text_eq, strip}
use threlium.Prelude.Json.{Json, arr, obj, Items, nil, cons, Fields, get_or_null}
use threlium.Irt.Snapshot.{Snapshot}
use threlium.Route.Wire.{IngressRoute, isomorph_route, IsomorphIngressRoute, RouteLib}
use threlium.Route.Resolve.{resolve_egress_task_route_ancestor, isomorph}
use threlium.Invisible.Roundtrip.{decode_mid_safe-encode_mid_safe}
use threlium.Isomorph.MidBack.{MidLaws, mid_to_snowflake-snowflake_to_mid}
use threlium.Isomorph.Mid.{MidLib, snowflake_to_mid, watermark_reply, decode_glue_snowflake}
use threlium.Isomorph.History.{
  IsomorphApiSurface, Msg, content_of, msg_of, msgs_of, system_msgs, parse_messages, last_assistant,
  render_body, in_reply_to_of, history_of, parse_history,
}
use threlium.Isomorph.Egress.{
  Egressed, glue, watermarked, archive_first, push_reply, egress_isomorph_main,
}

abbrev pub append_items : Items → Items → Items
append_items nil b = b
append_items (cons v a) b = cons v (append_items a b)

msgs_of-append :
    (repr : Json → Text) (a b : Items)
    → msgs_of repr (append_items a b) ≡ msgs_of repr a ++ msgs_of repr b
unfolding msgs_of
msgs_of-append repr nil b = refl
msgs_of-append repr (cons (obj m) a) b = ap (◌∷◌ (msg_of repr m)) (msgs_of-append repr a b)
msgs_of-append repr (cons _ a) b = msgs_of-append repr a b

last_assistant-append :
    (before : List Msg) (m : Msg) (tail : List Msg)
    → m.role ≡ codes "assistant"
    → last_assistant tail ≡ none
    → last_assistant (before ++ m ∷ tail) ≡ some (m, tail)
unfolding last_assistant text_eq
last_assistant-append [] m tail r n = rw (n, r) refl
last_assistant-append (b ∷ before) m tail r n = rw (last_assistant-append before m tail r n) refl

-- The answer of the last turn decides the message that the history answers, and what comes behind
-- it is what is new.
history_of-answer :
    (lib : MidLib) (before : List Msg) (m : Msg) (tail : List Msg) {mid : Option Text}
    → m.role ≡ codes "assistant"
    → last_assistant tail ≡ none
    → in_reply_to_of lib m.render ≡ ok mid
    → history_of lib (before ++ m ∷ tail)
      ≡ ok (record { in_reply_to = mid; tail_body = render_body tail })
unfolding history_of
history_of-answer lib before m tail r n i =
    rw (history_of, last_assistant-append before m tail r n, i) refl

parse_messages-split :
    (repr : Json → Text) (surface : IsomorphApiSurface) (body : Fields) (earlier later : Items)
    (m : Fields)
    → get_or_null (codes "messages") body ≡ arr (append_items earlier (cons (obj m) later))
    → parse_messages repr surface body
      ≡ ok (
          (system_msgs repr surface body ++ msgs_of repr earlier)
          ++ msg_of repr m ∷ msgs_of repr later)
unfolding parse_messages msgs_of
parse_messages-split repr surface body earlier later m found =
    rw (parse_messages, found, msgs_of-append repr earlier (cons (obj m) later))
      (ap ok (
        sym (
          append_assoc (system_msgs repr surface body) (msgs_of repr earlier)
            (msg_of repr m ∷ msgs_of repr later))))

-- The text of an assistant's message is kept as it is.
render-assistant :
    (repr : Json → Text) (m : Fields)
    → (msg_of repr m).role ≡ codes "assistant"
    → (msg_of repr m).render ≡ content_of repr m
unfolding msg_of text_eq
render-assistant repr m role = rw role refl

-- The mark behind a reply leads to the id of its record.
in_reply_to-watermark :
    (lib : MidLib) (reply : Text) (n : ℕ) {mid : Text}
    → snowflake_to_mid lib n ≡ ok mid
    → in_reply_to_of lib (watermark_reply reply n) ≡ ok (some mid)
unfolding in_reply_to_of decode_glue_snowflake watermark_reply
in_reply_to-watermark lib reply n h =
    rw (in_reply_to_of, decode_mid_safe-encode_mid_safe reply n, h) refl

-- What the stage finds in the archive is the id of a snowflake.
abbrev pub IsGlue : MidLib → Option Text → Type 0
IsGlue lib none = Unit {0}
IsGlue lib (some glue_mid) = (n : ℕ) × (snowflake_to_mid lib n ≡ ok glue_mid)

glue-snowflake :
    (lib : MidLib)
    → MidLaws lib
    → (existing : Option Text) (minted : ℕ) → IsGlue lib existing
    → {mid : Text} {sf : Option ℕ} → glue lib existing minted ≡ ok (mid, sf)
    → (n : ℕ) × (sf ≡ some n) × (snowflake_to_mid lib n ≡ ok mid)
unfolding glue
glue-snowflake lib laws none minted g h =
    let (mid, e, same) = >>=-eq-ok (snowflake_to_mid lib minted) _ h in
    (minted, sym (ap (λ p. p.1) (ok-injective same)), rw (← ap (λ p. p.0) (ok-injective same)) e)
glue-snowflake lib laws (some glue_mid) minted (n, e) h = (
  n,
  sym (ap (λ p. p.1) (ok-injective h)) ∙ mid_to_snowflake-snowflake_to_mid lib laws n e,
  rw (← ap (λ p. p.0) (ok-injective h)) e,
)

module _ (lib : MidLib) (laws : MidLaws lib) (routes : RouteLib)
    (ancestors : Text → Result (List Snapshot)) (archive : Text → Result (Unit {0})) where
  push_reply-text :
      (route : IsomorphIngressRoute) (corr system_text : Text) (existing : Option Text) (minted : ℕ)
      → IsGlue lib existing
      → {out : Egressed}
      → push_reply lib routes ancestors archive route corr system_text existing minted ≡ ok out
      → in_reply_to_of lib out.payload.text ≡ ok (some out.glue_mid)
  unfolding push_reply watermarked
  push_reply-text route corr system_text existing minted g h =
      let ((mid, sf), e, rest) = >>=-eq-ok (glue lib existing minted) _ h in
      let (archived, a, same) =
        >>=-eq-ok (archive_first lib routes ancestors archive existing mid) _ rest in
      let (n, is_some, back) = glue-snowflake lib laws existing minted g e in
      rw (← ok-injective same, is_some) (in_reply_to-watermark lib (strip system_text) n back)

  -- An answer that the stage has pushed leads to its record in the archive.
  main-text :
      (message_id : Option Text) (system_text : Text) (existing : Option Text) (minted : ℕ)
      → IsGlue lib existing
      → {out : Egressed}
      → egress_isomorph_main lib routes ancestors archive message_id system_text existing minted
        ≡ ok out
      → in_reply_to_of lib out.payload.text ≡ ok (some out.glue_mid)
  unfolding egress_isomorph_main
  main-text message_id system_text existing minted g h =
      let ((ing, snap), e, rest) =
        >>=-eq-ok (resolve_egress_task_route_ancestor routes ancestors message_id isomorph) _ h in
      by_type ing snap.ancestor_mid rest
    where
      by_type :
          (ing : IngressRoute) (corr : Text) {out : Egressed}
          → (elim ing as (λ _. Result Egressed) [
            | isomorph_route route ↦
                push_reply lib routes ancestors archive route corr system_text existing minted
            | _ ↦ raise runtime_error
          ])
            ≡ ok out
          → in_reply_to_of lib out.payload.text ≡ ok (some out.glue_mid)
      by_type (isomorph_route route) corr k =
          push_reply-text route corr system_text existing minted g k
      by_type _ corr k = cc

  -- If base 62 and JSON give back the snowflakes, the letters of an id are plain, and what
  -- egress_isomorph finds in the archive is the id of a snowflake, then an answer that
  -- egress_isomorph pushes leads the next turn to its record: where the last message of the assistant
  -- in the history of a client is the text that was pushed, parse_history puts the turn behind the id
  -- of that record, and takes the messages behind the answer, and no others, as new.
  pub parse_history-answer :
      (message_id : Option Text) (system_text : Text) (existing : Option Text) (minted : ℕ)
      → IsGlue lib existing
      → {out : Egressed}
      → egress_isomorph_main lib routes ancestors archive message_id system_text existing minted
        ≡ ok out
      → (repr : Json → Text) (surface : IsomorphApiSurface) (body : Fields) (earlier later : Items)
        (m : Fields)
      → get_or_null (codes "messages") body ≡ arr (append_items earlier (cons (obj m) later))
      → (msg_of repr m).role ≡ codes "assistant"
      → content_of repr m ≡ out.payload.text
      → last_assistant (msgs_of repr later) ≡ none
      → parse_history lib repr surface body
        ≡ ok (record {
          in_reply_to = some out.glue_mid;
          tail_body = render_body (msgs_of repr later);
        })
  unfolding parse_history
  parse_history-answer message_id system_text existing minted g {out} h repr surface body earlier
        later m found role text tail =
      let marked : in_reply_to_of lib (msg_of repr m).render ≡ ok (some out.glue_mid) =
        rw (render-assistant repr m role, text)
          (main-text message_id system_text existing minted g h) in
      rw (parse_history, parse_messages-split repr surface body earlier later m found)
        (history_of-answer lib (system_msgs repr surface body ++ msgs_of repr earlier)
          (msg_of repr m) (msgs_of repr later) role tail marked)
