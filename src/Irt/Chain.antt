-- ===== src/Irt/Chain.antt =====
-- `_materialize_irt_chain` of threlium/irt_chain.py: the chain from a message to the root of its
-- thread. The index of notmuch is a parameter; the `while` loop runs on fuel.
use threlium.Prelude.{
  ℕ, zero, suc, Bool, not, ◌||◌, Option, none, some, List, [], ◌∷◌, Result, ok, raise,
  runtime_error, ◌>>=◌, ◌>>◌, raise_if,
}
use threlium.Prelude.Text.{Text, text_eq, text_key}
use threlium.Prelude.Wire.{parse_present_optional, parse_single_line}
use threlium.Prelude.Sort.{contains}
use threlium.Stage.Address.{MailLib}
use threlium.Irt.Snapshot.{Snapshot, from_optional_raw, in_reply_to_inner}

-- A message of the index: its id, path and tags, and its headers, `none` where there is none.
pub record NmMessage : Type 0 where
  pub messageid : Text
  pub path : Text
  pub tags : List Text
  pub from : Option Text
  pub to : Option Text
  pub route : Option Text
  pub references : Option Text
  pub in_reply_to : Option Text
  pub subject : Option Text

-- `_snapshot_from_nm_message`
unfoldable pub snapshot_from_nm_message : NmMessage → Text → Result Snapshot
unfolding parse_present_optional parse_single_line
snapshot_from_nm_message m mid = do
  subject ← parse_single_line m.subject
  ok (record {
    message_id_inner = mid;
    path = m.path;
    tags = m.tags;
    header_from = parse_present_optional m.from;
    header_to = parse_present_optional m.to;
    header_route = parse_present_optional m.route;
    header_references = parse_present_optional m.references;
    header_in_reply_to = parse_present_optional m.in_reply_to;
    header_subject = subject;
  })

-- `nm.require_inner_message_id_from_notmuch_message`
unfoldable pub require_inner_message_id : NmMessage → Result Text
unfolding from_optional_raw
require_inner_message_id m = elim (from_optional_raw (some m.messageid)) [
  | none ↦ raise runtime_error
  | some inner ↦ ok inner
]

module _ (lib : MailLib) where
  open lib use {lower, casefold}

  unfoldable pub equals_case_insensitive : Text → Text → Bool
  unfolding text_eq
  equals_case_insensitive a b = text_eq a b || text_eq (lower a) (lower b)

  -- `_require_matching_indexed_mid`
  unfoldable pub require_matching_indexed_mid : NmMessage → Text → Result Text
  unfolding require_inner_message_id equals_case_insensitive
  require_matching_indexed_mid m expected = do
    indexed ← require_inner_message_id m
    raise_if (not (equals_case_insensitive indexed expected)) runtime_error
    ok indexed

  -- What a round of the loop does with the message that it has found: the snapshot and the key
  -- of the set `seen_inner`.
  unfoldable pub visit : List Text → NmMessage → Text → Result (Snapshot × Text)
  unfolding require_matching_indexed_mid snapshot_from_nm_message contains text_eq
  visit seen m next = do
    indexed ← require_matching_indexed_mid m next
    raise_if (contains (casefold indexed) seen) runtime_error
    snap ← snapshot_from_nm_message m indexed
    ok (snap, casefold indexed)

  module _ (find : Text → Option NmMessage) where
    -- The `while` loop, `none` where the fuel has run out. `seen` is the set `seen_inner`, newest
    -- first.
    unfoldable pub materialize_loop : ℕ → List Text → Text → Option (Result (List Snapshot))
    unfolding visit in_reply_to_inner
    materialize_loop zero seen next = none
    materialize_loop (suc fuel) seen next = elim (find next) [
      | none ↦ some (raise runtime_error)
      | some m ↦ elim (visit seen m next) [
        | raise e ↦ some (raise e)
        | ok (snap, key) ↦ elim (in_reply_to_inner snap) [
          | none ↦ some (ok (snap ∷ []))
          | some parent ↦ elim (materialize_loop fuel (key ∷ seen) parent) [
            | none ↦ none
            | some (raise e) ↦ some (raise e)
            | some (ok rest) ↦ some (ok (snap ∷ rest))
          ]
        ]
      ]
    ]

    -- `_materialize_irt_chain`
    unfoldable pub materialize_irt_chain : ℕ → Text → Option (Result (List Snapshot))
    unfolding materialize_loop
    materialize_irt_chain fuel start = materialize_loop fuel [] start
