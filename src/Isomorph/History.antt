-- ===== src/Isomorph/History.antt =====
-- `parse_history` of threlium/bridges/isomorph/history.py: what a client's history says of the
-- message that it answers, and what is new in it.
use threlium.Prelude.{
  Bool, ◌||◌, Option, none, some, List, [], ◌∷◌, ◌++◌, map, is_empty, if◌then◌else◌, Result, ok,
  raise, value_error, ◌>>=◌,
}
use threlium.Prelude.Text.{Text, codes, text_eq, strip}
use threlium.Prelude.Json.{
  Json, null, str, scalar, arr, obj, Items, nil, cons, Fields, end, field, get_field, get_or_null,
  is_text,
}
use threlium.Isomorph.Mid.{MidLib, decode_glue_snowflake, snowflake_to_mid}

pub data IsomorphApiSurface : Type 0 where
  anthropic_messages openai_chat_completions : IsomorphApiSurface

-- `_Msg`
pub record Msg : Type 0 where
  pub role : Text
  pub render : Text

pub record ParsedHistory : Type 0 where
  pub in_reply_to : Option Text
  pub tail_body : Text

-- `"\n".join(p for p in parts if p)`
unfoldable pub join_parts : List Text → Text
join_parts [] = []
join_parts (p ∷ parts) =
    let rest = join_parts parts in
    if is_empty p then rest else if is_empty rest then p else p ++ 10 ∷ rest

-- `repr` is Python's `str` of a list or a dictionary.
module _ (repr : Json → Text) where
  -- `str(v)`
  unfoldable pub str_of : Json → Text
  str_of null = codes "None"
  str_of (str s) = s
  str_of (scalar t) = t
  str_of (arr items) = repr (arr items)
  str_of (obj fields) = repr (obj fields)

  -- `str(d.get(key, ""))`
  unfoldable pub str_or_empty : Text → Fields → Text
  unfolding str_of get_field
  str_or_empty key fields = elim (get_field key fields) [ none ↦ [] | some v ↦ str_of v ]

  -- `btype in ("text", "input_text", "output_text")`
  unfoldable pub is_text_block : Fields → Bool
  unfolding get_or_null is_text
  is_text_block fields =
      let btype = get_or_null (codes "type") fields in
      is_text btype (codes "text")
      || is_text btype (codes "input_text")
      || is_text btype (codes "output_text")

  unfoldable mutual
    unfolding str_or_empty is_text_block join_parts get_or_null is_text text_eq

    pub coerce_text : Json → Text
    coerce_text null = []
    coerce_text (str s) = s
    coerce_text (scalar t) = t
    coerce_text (arr items) = join_parts (block_parts items)
    coerce_text (obj fields) = repr (obj fields)

    -- The loop over the blocks.
    pub block_parts : Items → List Text
    block_parts nil = []
    block_parts (cons block items) = block_part block ++ block_parts items

    pub block_part : Json → List Text
    block_part (str s) = s ∷ []
    block_part (obj fields) =
        if is_text_block fields
        then str_or_empty (codes "text") fields ∷ []
        else if is_text (get_or_null (codes "type") fields) (codes "tool_result")
        then coerce_content fields ∷ []
        else []
    block_part _ = []

    -- `_coerce_text(block.get("content"))`
    pub coerce_content : Fields → Text
    coerce_content end = []
    coerce_content (field k v fields) =
        if text_eq k (codes "content") then coerce_text v else coerce_content fields

  -- `_coerce_text(m.get("content"))`
  unfoldable pub content_of : Fields → Text
  unfolding coerce_text get_or_null
  content_of m = coerce_text (get_or_null (codes "content") m)

  -- `f"[{role}] {text}"`
  abbrev pub labelled : Text → Text → Text
  labelled role text = if is_empty text then [] else 91 ∷ (role ++ codes "] " ++ text)

  -- One round of the loop over the messages.
  unfoldable pub msg_of : Fields → Msg
  unfolding str_or_empty strip text_eq content_of
  msg_of m =
      let role = strip (str_or_empty (codes "role") m) in
      record {
        role = role;
        render =
            if text_eq role (codes "assistant")
            then content_of m
            else labelled role (strip (content_of m));
      }

  unfoldable pub msgs_of : Items → List Msg
  unfolding msg_of
  msgs_of nil = []
  msgs_of (cons (obj m) items) = msg_of m ∷ msgs_of items
  msgs_of (cons _ items) = msgs_of items

  -- The top-level `system` of the Anthropic API
  unfoldable pub system_msgs : IsomorphApiSurface → Fields → List Msg
  unfolding coerce_text get_or_null strip
  system_msgs openai_chat_completions body = []
  system_msgs anthropic_messages body =
      let sys_text = strip (coerce_text (get_or_null (codes "system") body)) in
      if is_empty sys_text
      then []
      else record { role = codes "system"; render = labelled (codes "system") sys_text } ∷ []

  -- `_parse_messages`
  unfoldable pub parse_messages : IsomorphApiSurface → Fields → Result (List Msg)
  unfolding get_or_null system_msgs msgs_of
  parse_messages surface body = elim (get_or_null (codes "messages") body) [
    | arr items ↦ ok (system_msgs surface body ++ msgs_of items)
    | _ ↦ raise value_error
  ]

-- The last message of the assistant with what comes behind it, `none` where there is none.
unfoldable pub last_assistant : List Msg → Option (Msg × List Msg)
unfolding text_eq
last_assistant [] = none
last_assistant (m ∷ msgs) = elim (last_assistant msgs) [
  | some found ↦ some found
  | none ↦ if text_eq m.role (codes "assistant") then some (m, msgs) else none
]

-- `_render_body`
unfoldable pub render_body : List Msg → Text
unfolding join_parts strip
render_body tail_msgs = strip (join_parts (map (λ m. m.render) tail_msgs))

module _ (lib : MidLib) where
  -- The `In-Reply-To` that the last answer carries.
  unfoldable pub in_reply_to_of : Text → Result (Option Text)
  unfolding decode_glue_snowflake snowflake_to_mid
  in_reply_to_of render = elim (decode_glue_snowflake render) [
    | none ↦ ok none
    | some sf ↦ snowflake_to_mid lib sf >>= λ mid. ok (some mid)
  ]

  unfoldable pub history_of : List Msg → Result ParsedHistory
  unfolding last_assistant in_reply_to_of render_body
  history_of msgs = elim (last_assistant msgs) [
    | none ↦ ok (record { in_reply_to = none; tail_body = render_body msgs })
    | some (m, tail) ↦ in_reply_to_of m.render >>= λ mid.
        ok (record { in_reply_to = mid; tail_body = render_body tail })
  ]

  unfoldable pub parse_history : (Json → Text) → IsomorphApiSurface → Fields → Result ParsedHistory
  unfolding parse_messages history_of
  parse_history repr surface body = parse_messages repr surface body >>= λ msgs. history_of msgs
