-- ===== src/Route/Tests.antt =====
-- Runs of the router: an answer of response_finalize in a thread that came from Telegram.
use threlium.Prelude.{
  ◌≡◌, refl, true, ◌⊎◌, Option, none, some, List, [], ◌∷◌, if◌then◌else◌, Result, ok,
}
use threlium.Prelude.Int.{pos}
use threlium.Prelude.Text.{Text, codes, text_eq, strip}
use threlium.Prelude.Json.{Json, str, obj, end, field, get_or_null, is_text}
use threlium.Stage.Names.{
  FsmStage, rfc822_mailbox, response_finalize, egress_router, ingress, subagent_end,
  egress_telegram,
}
use threlium.Stage.Address.{MailLib}
use threlium.Irt.Snapshot.{Snapshot, subagent_marker, plain}
use threlium.Irt.Frame.{Frame, root, own, at_root}
use threlium.Hop.Line.{IntText}
use threlium.Emit.Patch.{Incoming, Managed}
use threlium.Route.Wire.{
  EmailIngressRoute, TelegramIngressRoute, MatrixIngressRoute, IsomorphIngressRoute, RouteLib,
}
use threlium.Irt.Filter.{has_route_tag}
use threlium.Route.Resolve.{egress_fsm_start_inner}
use threlium.Route.Typed.{RouteLaws}
use threlium.Route.Router.{egress_router_main, email_message_sent_from_fsm_stage}
use threlium.Route.Agree.{
  LowersSlugs, Accepts, egress_router_main-Accepts, egress_router_main-Frame, goes,
}

abbrev plain_mail : MailLib
plain_mail = record { lower = λ t. t; casefold = λ t. t; getaddresses = λ t. t ∷ [] }

abbrev five : IntText
five = record { int = λ t. some (pos 5); str = λ n. codes "5" }

as_email : Json → Option EmailIngressRoute
as_email (str c) = some (record {
  channel = c;
  origin = codes "user@example.org";
  v = pos 1;
  reply_target_rfc_message_id = none;
  imap_uid = none;
  imap_uidvalidity = none;
})
as_email _ = none

as_telegram : Json → Option TelegramIngressRoute
as_telegram (str c) = some (record {
  channel = c;
  v = pos 1;
  chat_id = pos 7;
  message_id = pos 8;
  message_thread_id = none;
  update_id = pos 9;
})
as_telegram _ = none

as_matrix : Json → Option MatrixIngressRoute
as_matrix (str c) = some (record {
  channel = c;
  v = pos 1;
  room_id = codes "!r";
  event_id = codes "$e";
  sync_batch = none;
  reply_to_event_id = none;
})
as_matrix _ = none

as_isomorph : Json → Option IsomorphIngressRoute
as_isomorph (str c) = some (record {
  channel = c;
  api_surface = codes "anthropic_messages";
  model = codes "m";
  v = pos 1;
  stream = true;
})
as_isomorph _ = none

as_email-channel : (v : Json) (r : EmailIngressRoute) → as_email v ≡ some r → v ≡ str r.channel
unfolding as_email
as_email-channel (str c) r h = cc
as_email-channel _ r h = cc

as_telegram-channel :
    (v : Json) (r : TelegramIngressRoute) → as_telegram v ≡ some r → v ≡ str r.channel
unfolding as_telegram
as_telegram-channel (str c) r h = cc
as_telegram-channel _ r h = cc

as_matrix-channel : (v : Json) (r : MatrixIngressRoute) → as_matrix v ≡ some r → v ≡ str r.channel
unfolding as_matrix
as_matrix-channel (str c) r h = cc
as_matrix-channel _ r h = cc

as_isomorph-channel :
    (v : Json) (r : IsomorphIngressRoute) → as_isomorph v ≡ some r → v ≡ str r.channel
unfolding as_isomorph
as_isomorph-channel (str c) r h = cc
as_isomorph-channel _ r h = cc

-- A route is its channel, with a space.
abbrev routes : RouteLib
routes = record {
  decode_base62 = λ t. ok t;
  decode_json = λ t. some (obj (field (codes "channel") (str (32 ∷ t)) end));
  decode_email = λ norm. as_email (get_or_null (codes "channel") norm);
  decode_telegram = λ norm. as_telegram (get_or_null (codes "channel") norm);
  decode_matrix = λ norm. as_matrix (get_or_null (codes "channel") norm);
  decode_isomorph = λ norm. as_isomorph (get_or_null (codes "channel") norm);
}

routes-RouteLaws : RouteLaws routes
routes-RouteLaws = record {
  email_channel = λ norm. as_email-channel (get_or_null (codes "channel") norm);
  telegram_channel = λ norm. as_telegram-channel (get_or_null (codes "channel") norm);
  matrix_channel = λ norm. as_matrix-channel (get_or_null (codes "channel") norm);
  isomorph_channel = λ norm. as_isomorph-channel (get_or_null (codes "channel") norm);
}

abbrev sent : FsmStage → List Text → Option Text → Snapshot
sent stage tags route = record {
  message_id_inner = codes "m";
  path = codes "p";
  tags = tags;
  header_from = some (rfc822_mailbox stage);
  header_to = none;
  header_route = route;
  header_references = none;
  header_in_reply_to = none;
  header_subject = none;
}

abbrev thread : List Snapshot
thread =
    sent response_finalize [] none
    ∷ sent ingress (codes "route" ∷ []) (some (codes "telegram"))
    ∷ []

-- The letter of the router stands before the thread.
abbrev index : Text → Result (List Snapshot)
index t = if text_eq t (codes "a") then ok thread else ok (sent egress_router [] none ∷ thread)

abbrev answer : Incoming
answer = record {
  from = some (rfc822_mailbox response_finalize);
  message_id = some (codes "<a>");
  hop_budget = some (codes "5");
}

thread-Frame : Frame plain_mail thread thread at_root
unfolding subagent_marker rfc822_mailbox strip text_eq
thread-Frame = own finalize_plain (own ingress_plain root)
  where
    finalize_plain : subagent_marker plain_mail (sent response_finalize [] none) ≡ plain
    finalize_plain = refl

    ingress_plain :
        subagent_marker plain_mail (sent ingress (codes "route" ∷ []) (some (codes "telegram")))
        ≡ plain
    ingress_plain = refl

abbrev Goes : Type 0
Goes =
    egress_router_main plain_mail routes five (pos 50) index answer
    ≡ goes plain_mail routes five (pos 50) index answer at_root

answer_start : egress_fsm_start_inner answer.message_id ≡ ok (codes "a")
unfolding egress_fsm_start_inner
answer_start = refl

next_start : egress_fsm_start_inner (some (codes "<b>")) ≡ ok (codes "b")
unfolding egress_fsm_start_inner
next_start = refl

egress_router_main-Frame_example : Goes
unfolding email_message_sent_from_fsm_stage rfc822_mailbox text_eq
egress_router_main-Frame_example =
    egress_router_main-Frame plain_mail routes five (pos 50) index answer refl answer_start refl
      thread-Frame

slugs : LowersSlugs plain_mail
slugs c = refl

abbrev headers : Managed
headers = record { in_reply_to = some (codes "<a>"); hop_budget = codes "5" }

goes_to_telegram :
    egress_router_main plain_mail routes five (pos 50) index answer ≡ ok (egress_telegram, headers)
unfolding egress_router_main rfc822_mailbox get_or_null is_text as_telegram text_eq strip
    subagent_marker
goes_to_telegram = refl

egress_router_main-Accepts_example :
    (egress_telegram ≡ subagent_end)
    ⊎ Accepts plain_mail routes five (pos 50) index (some (codes "<b>")) egress_telegram
unfolding text_eq has_route_tag
egress_router_main-Accepts_example =
    egress_router_main-Accepts plain_mail routes five (pos 50) index routes-RouteLaws slugs answer
      answer_start refl (some (codes "<b>")) (sent egress_router [] none) next_start refl refl
      goes_to_telegram
