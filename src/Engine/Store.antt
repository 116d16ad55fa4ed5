-- ===== src/Engine/Store.antt =====
-- What the engine does to the index of notmuch: `settle_recovery_for_stage`, `nm_settle`
-- (threlium/nm.py) and `_find_unread_in_thread` (threlium/runners/engine/fsm.py), over the letters
-- of the index.
use threlium.Prelude.{
  ◌≡◌, Bool, true, false, not, ◌&&◌, Option, none, some, List, [], ◌∷◌, map, any, if◌then◌else◌,
  Result, ok, raise, runtime_error, lookup_error, ◌>>=◌, ◌>>◌, raise_if,
}
use threlium.Prelude.Text.{Text}
use threlium.Stage.Names.{FsmStage, rfc822_mailbox}

-- A letter of the index: its id, thread, bytes, whether its file lies in `cur/` and has the flag `S`,
-- and whether it is tagged `unread`.
pub record Letter : Type 0 where
  pub inner : Text
  pub thread : Text
  pub content : Text
  pub in_cur : Bool
  pub seen : Bool
  pub unread : Bool

-- The operations and the query terms of notmuch.
pub record IndexLib : Type 0 where
  pub from_maildir_flags : Letter → Letter
  pub to_maildir_flags : Letter → Letter
  -- `folder:"<stage>/Maildir"`, `to:<mailbox>` and `thread:<id>`
  pub in_folder : Text → Letter → Bool
  pub is_to : Text → Letter → Bool
  pub in_thread : Text → Letter → Bool
  -- `db.find`
  pub has_id : Text → Letter → Bool
  -- the order in which a query with `SORT.UNSORTED` goes through the index
  pub unsorted : List Letter → List Letter

-- The first letter of a query.
unfoldable pub first_letter : (Letter → Bool) → List Letter → Option Letter
first_letter p [] = none
first_letter p (l ∷ letters) = if p l then some l else first_letter p letters

unfoldable pub update_first : (Letter → Bool) → (Letter → Letter) → List Letter → List Letter
update_first p f [] = []
update_first p f (l ∷ letters) = if p l then f l ∷ letters else l ∷ update_first p f letters

module _ (index : IndexLib) where
  open index use {
    from_maildir_flags, to_maildir_flags, in_folder, is_to, in_thread, has_id, unsorted,
  }

  -- `settle_recovery_for_stage`
  unfoldable pub recovered_letter : Text → Letter → Letter
  recovered_letter stage l =
      if in_folder stage l && l.unread && l.in_cur then from_maildir_flags l else l

  unfoldable pub settle_recovery_for_stage : Text → List Letter → List Letter
  unfolding recovered_letter
  settle_recovery_for_stage stage letters = map (recovered_letter stage) letters

  -- The query of `_find_unread_in_thread`; `sort_newest_first=False` of `first_message_path` is no
  -- order.
  abbrev pub is_waiting : FsmStage → Text → Letter → Bool
  is_waiting stage thread_id l = l.unread && in_thread thread_id l && is_to (rfc822_mailbox stage) l

  unfoldable pub find_unread_in_thread : FsmStage → Text → List Letter → Option Letter
  unfolding first_letter
  find_unread_in_thread stage thread_id letters =
      first_letter (is_waiting stage thread_id) (unsorted letters)

  -- `_prepare_settle_target`; `first_notmuch_message_for_inner_id` is a second `db.find`.
  unfoldable pub prepare_settle_target : Text → List Letter → Result (List Letter)
  unfolding first_letter update_first
  prepare_settle_target inner letters =
      if any (has_id inner) letters
      then ok letters
      else elim (first_letter (has_id inner) letters) [
        | none ↦ raise runtime_error
        | some l ↦
            if l.in_cur
            then ok (update_first (has_id inner) from_maildir_flags letters)
            else ok letters
      ]

  -- The tag is taken off, and the file goes to `cur/` with the flag.
  abbrev pub settled : Letter → Letter
  settled l = to_maildir_flags (record l { unread = false })

  -- `nm_settle`
  unfoldable pub nm_settle : Text → List Letter → Result (List Letter)
  unfolding prepare_settle_target update_first
  nm_settle inner letters = prepare_settle_target inner letters >>= λ prepared.
      raise_if (not (any (has_id inner) prepared)) lookup_error
      >> ok (update_first (has_id inner) settled prepared)

  -- What is left of `nm_settle` where the process ends after the file is renamed and before the
  -- index is written: the flag without the tag's removal.
  unfoldable pub half_settled : Text → List Letter → List Letter
  unfolding update_first
  half_settled inner letters =
      update_first (has_id inner) (λ l. record (settled l) { unread = l.unread }) letters

-- What notmuch says of its operations: the flag `S` and the tag `unread` exclude one another after
-- either, an operation keeps the rest of the letter, and an id names its letter.
pub record IndexLaws (index : IndexLib) : Type 0 where
  pub from_inner : (l : Letter) → (index.from_maildir_flags l).inner ≡ l.inner
  pub from_seen : (l : Letter) → (index.from_maildir_flags l).seen ≡ l.seen
  pub from_unread : (l : Letter) → (index.from_maildir_flags l).unread ≡ not l.seen
  pub to_inner : (l : Letter) → (index.to_maildir_flags l).inner ≡ l.inner
  pub from_thread :
      (thread : Text) (l : Letter)
      → index.in_thread thread (index.from_maildir_flags l) ≡ index.in_thread thread l
  pub from_to :
      (mailbox : Text) (l : Letter)
      → index.is_to mailbox (index.from_maildir_flags l) ≡ index.is_to mailbox l
  pub any_unsorted :
      (p : Letter → Bool) (letters : List Letter) → any p (index.unsorted letters) ≡ any p letters
  pub id_inner : (inner : Text) (l : Letter) → index.has_id inner l ≡ true → l.inner ≡ inner
