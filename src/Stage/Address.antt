-- ===== src/Stage/Address.antt =====
-- The parsers of `FsmStage`: from a local part or a mailbox, and from the `To:` of a message.
use threlium.Prelude.{
  ◌≡◌, refl, Bool, Option, none, some, List, [], ◌∷◌, if◌then◌else◌, any, ◌==◌, Result, ok, raise,
  value_error, runtime_error, not, ◌||◌, is_empty, select,
}
use threlium.Prelude.Text.{Text, codes, text_eq, strip}
use threlium.Stage.Names.{FsmStage, of_value, value, rfc822_mailbox, ingress}

-- What the code takes of Python's text and mail library.
pub record MailLib : Type 0 where
  pub lower : Text → Text
  pub casefold : Text → Text
  -- the addresses of `email.utils.getaddresses([header])`, without the names
  pub getaddresses : Text → List Text

-- `s.partition("@")`, and `s.split("@", 1)` where there is an `@`: what stands before and behind the first one.
unfoldable pub before_at : Text → Text
before_at [] = []
before_at (c ∷ cs) = if c == 64 then [] else c ∷ before_at cs

unfoldable pub behind_at : Text → Text
behind_at [] = []
behind_at (c ∷ cs) = if c == 64 then cs else behind_at cs

unfoldable pub has_at : Text → Bool
has_at s = any (λ c. c == 64) s

unfoldable pub has_plus : Text → Bool
has_plus s = any (λ c. c == 43) s

-- `cls(key)`
unfoldable pub stage_of_key : Text → Result FsmStage
unfolding of_value
stage_of_key key = elim (of_value key) [ none ↦ raise value_error | some s ↦ ok s ]

module _ (lib : MailLib) where
  open lib use {lower, getaddresses}

  -- The branch of `parse` for a text with an `@`.
  unfoldable pub parse_mailbox : Text → Result FsmStage
  unfolding before_at behind_at has_plus strip stage_of_key text_eq
  parse_mailbox s =
      let local = strip (before_at s) in
      if not (text_eq (lower (strip (behind_at s))) (codes "localhost"))
      then raise value_error
      else if has_plus local
      then raise value_error
      else if is_empty local
      then raise value_error
      else stage_of_key local

  -- `FsmStage.parse`
  unfoldable pub parse : Option Text → Result FsmStage
  unfolding parse_mailbox has_at
  parse none = raise value_error
  parse (some raw) =
      let s = strip raw in
      if is_empty s then raise value_error else if has_at s then parse_mailbox s else stage_of_key s

  -- `FsmStage.from_mailbox`
  unfoldable pub from_mailbox : Option Text → Result FsmStage
  unfolding parse
  from_mailbox none = raise value_error
  from_mailbox (some raw) = elim (strip raw) [
    | [] ↦ raise value_error
    | c ∷ s ↦ elim (select (λ a. not (is_empty a)) (getaddresses (c ∷ s))) [
      | [] ↦ parse (some (c ∷ s))
      | a ∷ rest ↦ parse (some a)
    ]
  ]

  -- `FsmStage.try_from_mailbox`
  unfoldable pub try_from_mailbox : Option Text → Option FsmStage
  unfolding from_mailbox
  try_from_mailbox none = none
  try_from_mailbox (some raw) = elim (from_mailbox (some raw)) [ ok s ↦ some s | raise e ↦ none ]

  -- `FsmStage.from_incoming_to`, over the addresses of the `To:` headers.
  unfoldable pub from_incoming_to : List Text → Result FsmStage
  unfolding parse
  from_incoming_to [] = raise runtime_error
  from_incoming_to (a ∷ b ∷ rest) = raise runtime_error
  from_incoming_to (a ∷ []) =
      if not (has_at a)
      then raise runtime_error
      else if not (text_eq (behind_at a) (codes "localhost"))
      then raise runtime_error
      else if has_plus (before_at a)
      then raise runtime_error
      else if is_empty (before_at a)
      then raise runtime_error
      else parse (some (before_at a))

  -- `FsmStage._try_stage_from_single_addr`
  unfoldable pub try_stage_from_single_addr : Text → Option FsmStage
  unfolding parse
  try_stage_from_single_addr a =
      if not (has_at a)
      then none
      else if not (text_eq (behind_at a) (codes "localhost"))
          || has_plus (before_at a)
          || is_empty (strip (before_at a))
      then none
      else elim (parse (some (before_at a))) [ ok s ↦ some s | raise e ↦ none ]

  -- `FsmStage.try_from_to_header_value`
  unfoldable pub try_from_to_header_value : Option Text → Option FsmStage
  unfolding try_stage_from_single_addr
  try_from_to_header_value none = none
  try_from_to_header_value (some raw) = elim (select (λ a. not (is_empty a)) (getaddresses raw)) [
    | [] ↦ none
    | a ∷ [] ↦ try_stage_from_single_addr a
    | a ∷ b ∷ rest ↦ none
  ]

  -- The mailbox of a stage is read back as the stage, from a bare value, from a mailbox, and from
  -- the `To:` of a message, if `lower` leaves `localhost` alone.
  pub parse-rfc822_mailbox :
      lower (codes "localhost") ≡ codes "localhost"
      → (s : FsmStage)
      → (parse (some (rfc822_mailbox s)) ≡ ok s)
        × (parse (some (value s)) ≡ ok s)
        × (from_incoming_to (rfc822_mailbox s ∷ []) ≡ ok s)
        × (try_stage_from_single_addr (rfc822_mailbox s) ≡ some s)
  unfolding parse from_incoming_to try_stage_from_single_addr rfc822_mailbox
  parse-rfc822_mailbox h ingress = (rw h, refl, refl, refl)
  parse-rfc822_mailbox h _ = (rw h, refl, refl, refl)
