-- ===== src/Isomorph/Mid.antt =====
-- Message ids of the bridge: threlium/bridges/isomorph/snowflake_mid.py, and `from_native` and
-- `native_from_canonical_str` of threlium/types/rfc.py.
use threlium.Prelude.{
  ℕ, not, ◌&&◌, ◌||◌, ◌==◌, Option, none, some, [], ◌∷◌, ◌++◌, any, is_empty, if◌then◌else◌, Result,
  ok, raise, runtime_error,
}
use threlium.Prelude.Text.{Text, codes, text_eq, strip}
use threlium.Prelude.Wire.{parse_present_optional}
use threlium.Irt.Snapshot.{drop_last, ends_with_gt}
use threlium.Invisible.Codec.{encode_mid_safe, decode_mid_safe}

-- JSON and base 62 of the ids, and the hash of a tail.
pub record MidLib : Type 0 where
  -- `base62.encodebytes` of the JSON of an `IsomorphSnowflakeId`, and back
  pub snowflake_left : ℕ → Text
  pub snowflake_of_left : Text → Option ℕ
  -- the same of an `IsomorphContentId`
  pub content_left : Text → Text
  -- the canonical JSON of a parent and a tail, and `hashlib.sha256(…).hexdigest()`
  pub ingress_json : Text → Text → Text
  pub sha256_hex : Text → Text

-- `RfcMessageIdWire.from_native`, of the encoded id
unfoldable pub from_native : Text → Result Text
unfolding parse_present_optional
from_native left = elim (parse_present_optional (some (60 ∷ (left ++ codes "@localhost>")))) [
  | none ↦ raise runtime_error
  | some w ↦ ok w
]

-- `inner.rpartition("@")`: what stands before the last one, and behind it.
unfoldable pub rpartition_at : Text → Text × Text
rpartition_at [] = ([], [])
rpartition_at (c ∷ s) =
    let (left, right) = rpartition_at s in
    if any (λ d. d == 64) s then (c ∷ left, right) else if c == 64 then ([], s) else ([], c ∷ s)

-- `_MSGID_RE.fullmatch`: the group of a text in brackets that holds no bracket.
unfoldable pub msgid_group : Text → Option Text
unfolding ends_with_gt drop_last
msgid_group [] = none
msgid_group (c ∷ s) =
    if c == 60
      && ends_with_gt s
      && not (is_empty (drop_last s))
      && not (any (λ d. d == 60 || d == 62) (drop_last s))
    then some (drop_last s)
    else none

module _ (lib : MidLib) where
  open lib use {snowflake_left, snowflake_of_left, content_left, ingress_json, sha256_hex}

  unfoldable pub snowflake_to_mid : ℕ → Result Text
  unfolding from_native
  snowflake_to_mid snowflake = from_native (snowflake_left snowflake)

  -- `mid_to_snowflake`, with `native_from_canonical_str` in it
  unfoldable pub mid_to_snowflake : Text → Option ℕ
  mid_to_snowflake mid = if is_empty mid then none else elim (msgid_group (strip mid)) [
    | none ↦ none
    | some group ↦
        let (left, right) = rpartition_at (strip group) in
        if text_eq right (codes "localhost") then snowflake_of_left left else none
  ]

  -- `ingress_message_id` of threlium/bridges/isomorph/history.py
  unfoldable pub ingress_message_id : Text → Text → Result Text
  unfolding from_native
  ingress_message_id parent_value tail_body =
      from_native (content_left (sha256_hex (ingress_json parent_value tail_body)))

unfoldable pub watermark_reply : Text → ℕ → Text
unfolding encode_mid_safe
watermark_reply reply_text glue_snowflake = reply_text ++ encode_mid_safe glue_snowflake

unfoldable pub decode_glue_snowflake : Text → Option ℕ
unfolding decode_mid_safe
decode_glue_snowflake assistant_text = decode_mid_safe assistant_text
