-- ===== src/Route/Wire.antt =====
-- The route of an ingress: threlium/types/identity.py and `IngressRouteB62Wire` of
-- threlium/types/ingress.py. Base 62 and the typed decoding of msgspec are parameters.
use threlium.Prelude.{
  Bool, ◌||◌, Option, none, some, is_empty, if◌then◌else◌, Result, ok, raise, value_error,
  decode_error, ◌>>=◌,
}
use threlium.Prelude.Int.{ℤ}
use threlium.Prelude.Text.{Text, codes, text_eq, strip}
use threlium.Prelude.Json.{Json, null, str, obj, Fields, end, field, get_or_null, is_text}

pub record EmailIngressRoute : Type 0 where
  pub channel : Text
  pub origin : Text
  pub v : ℤ
  pub reply_target_rfc_message_id : Option Text
  pub imap_uid : Option ℤ
  pub imap_uidvalidity : Option ℤ

pub record TelegramIngressRoute : Type 0 where
  pub channel : Text
  pub v : ℤ
  pub chat_id : ℤ
  pub message_id : ℤ
  pub message_thread_id : Option ℤ
  pub update_id : ℤ

pub record MatrixIngressRoute : Type 0 where
  pub channel : Text
  pub v : ℤ
  pub room_id : Text
  pub event_id : Text
  pub sync_batch : Option Text
  pub reply_to_event_id : Option Text

pub record IsomorphIngressRoute : Type 0 where
  pub channel : Text
  pub api_surface : Text
  pub model : Text
  pub v : ℤ
  pub stream : Bool

pub data IngressRoute : Type 0 where
  email_route : EmailIngressRoute → IngressRoute
  telegram_route : TelegramIngressRoute → IngressRoute
  matrix_route : MatrixIngressRoute → IngressRoute
  isomorph_route : IsomorphIngressRoute → IngressRoute

-- `ing.channel`
unfoldable pub channel_of : IngressRoute → Text
channel_of (email_route r) = r.channel
channel_of (telegram_route r) = r.channel
channel_of (matrix_route r) = r.channel
channel_of (isomorph_route r) = r.channel

-- The branch of `normalize_ingress_route_dict` for `reply_target_rfc_message_id`
unfoldable pub normalize_reply_target : Json → Result Json
unfolding get_or_null strip
normalize_reply_target null = ok null
normalize_reply_target (obj fields) = elim (get_or_null (codes "value") fields) [
  | null ↦ raise decode_error
  | str inner ↦
      ok (
        if is_empty (strip inner)
        then null
        else obj (field (codes "value") (str (strip inner)) end))
  | _ ↦ raise decode_error
]
normalize_reply_target _ = raise decode_error

-- `k in _OPTIONAL_STR_KEYS_EMPTY_TO_NONE`
unfoldable pub is_optional_str_key : Text → Bool
unfolding text_eq
is_optional_str_key k = text_eq k (codes "sync_batch") || text_eq k (codes "reply_to_event_id")

unfoldable pub normalize_value : Text → Json → Result Json
unfolding strip is_optional_str_key
normalize_value k (str v) =
    if is_empty (strip v)
    then (if is_optional_str_key k then ok null else raise decode_error)
    else ok (str (strip v))
normalize_value k v = ok v

-- `normalize_ingress_route_dict`
unfoldable pub normalize_ingress_route_dict : Fields → Result Fields
unfolding normalize_reply_target normalize_value text_eq
normalize_ingress_route_dict end = ok end
normalize_ingress_route_dict (field k v fields) =
    (if text_eq k (codes "reply_target_rfc_message_id")
      then normalize_reply_target v
      else normalize_value k v)
    >>= λ v'. normalize_ingress_route_dict fields >>= λ rest. ok (field k v' rest)

pub record RouteLib : Type 0 where
  -- `base62.decodebytes(value).decode("utf-8")`
  pub decode_base62 : Text → Result Text
  pub decode_json : Text → Option Json
  -- `msgspec.json.decode(blob2, type=…)`
  pub decode_email : Fields → Option EmailIngressRoute
  pub decode_telegram : Fields → Option TelegramIngressRoute
  pub decode_matrix : Fields → Option MatrixIngressRoute
  pub decode_isomorph : Fields → Option IsomorphIngressRoute

-- A value that is decoded, or msgspec's exception.
abbrev pub decoded : {A : Type 0} → (A → IngressRoute) → Option A → Result IngressRoute
decoded route none = raise decode_error
decoded route (some r) = ok (route r)

module _ (lib : RouteLib) where
  open lib use {
    decode_base62, decode_json, decode_email, decode_telegram, decode_matrix, decode_isomorph,
  }

  -- The choice of the type by the channel.
  unfoldable pub route_of_dict : Fields → Result IngressRoute
  unfolding get_or_null is_text
  route_of_dict norm =
      let ch = get_or_null (codes "channel") norm in
      if is_text ch (codes "email")
      then decoded email_route (decode_email norm)
      else if is_text ch (codes "telegram")
      then decoded telegram_route (decode_telegram norm)
      else if is_text ch (codes "matrix")
      then decoded matrix_route (decode_matrix norm)
      else if is_text ch (codes "isomorph")
      then decoded isomorph_route (decode_isomorph norm)
      else raise value_error

  unfoldable pub ingress_route_from_json_str : Text → Result IngressRoute
  unfolding normalize_ingress_route_dict route_of_dict
  ingress_route_from_json_str raw = elim (decode_json raw) [
    | none ↦ raise decode_error
    | some (obj probe) ↦ normalize_ingress_route_dict probe >>= λ norm. route_of_dict norm
    | some _ ↦ raise decode_error
  ]

  -- `IngressRouteB62Wire.to_ingress_route`
  unfoldable pub to_ingress_route : Text → Result IngressRoute
  unfolding ingress_route_from_json_str
  to_ingress_route value = decode_base62 value >>= λ json. ingress_route_from_json_str json

  -- `IngressRouteB62Wire.parse_route_from_optional_header`
  unfoldable pub parse_route_from_optional_header : Option Text → Result (Option IngressRoute)
  unfolding strip to_ingress_route
  parse_route_from_optional_header none = ok none
  parse_route_from_optional_header (some wire) =
      if is_empty (strip wire)
      then ok none
      else (to_ingress_route (strip wire) >>= λ route. ok (some route))
