-- ===== src/Response/Collect.antt =====
-- `collect_ops` of threlium/response/collect.py: the operations of the current turn, oldest first.
use threlium.Prelude.{
  ℕ, ◌+◌, Bool, true, ◌||◌, ◌&&◌, Option, none, some, List, [], ◌∷◌, reverse, select, is_empty,
  if◌then◌else◌, Result, ok, raise, runtime_error, ◌>>=◌,
}
use threlium.Prelude.Text.{Text, strip}
use threlium.Prelude.Int.{ℤ, pos}
use threlium.Stage.Names.{response_append, response_edit}
use threlium.Stage.Address.{MailLib}
use threlium.Irt.Snapshot.{Snapshot, is_sent_from_fsm_stage}
use threlium.Irt.Filter.{iter_filtered}
use threlium.Response.Ops.{ResponseOp, append_op, edit_op}

-- `ResponseEditStagePayload`
pub record ResponseEditStagePayload : Type 0 where
  pub position : ℤ
  pub new_content : Option Text

-- What the code reads of a letter through the mail library and msgspec: whether it has a
-- `<system>` part, the text of that part, and the decoding of an edit, `none` where it raises.
pub record ResponseLib : Type 0 where
  pub message_has_system : Text → Bool
  pub system_part_text_from_path : Text → Text
  pub parse_response_edit_stage_payload : Text → Option ResponseEditStagePayload

module _ (mail : MailLib) (lib : ResponseLib) where
  open lib use {message_has_system, system_part_text_from_path, parse_response_edit_stage_payload}

  unfoldable pub is_append_stage : Snapshot → Bool
  unfolding is_sent_from_fsm_stage
  is_append_stage snap = is_sent_from_fsm_stage mail snap response_append

  unfoldable pub is_edit_stage : Snapshot → Bool
  unfolding is_sent_from_fsm_stage
  is_edit_stage snap = is_sent_from_fsm_stage mail snap response_edit

  unfoldable pub is_response_stage : Snapshot → Bool
  unfolding is_append_stage is_edit_stage
  is_response_stage snap = is_append_stage snap || is_edit_stage snap

  -- `_carries_op_payload`
  unfoldable pub carries_op_payload : Snapshot → Bool
  carries_op_payload snap = message_has_system snap.path

  unfoldable pub parse_edit_body : Snapshot → Result ResponseEditStagePayload
  unfolding strip
  parse_edit_body snap =
      elim (parse_response_edit_stage_payload (strip (system_part_text_from_path snap.path))) [
        | none ↦ raise runtime_error
        | some payload ↦ ok payload
      ]

  unfoldable pub read_append_content : Snapshot → Text
  unfolding strip
  read_append_content snap = strip (system_part_text_from_path snap.path)

  -- The second loop of `collect_ops`; the number is `append_position`.
  unfoldable pub ops_loop : ℕ → List Snapshot → Result (List ResponseOp)
  unfolding is_append_stage is_edit_stage read_append_content parse_edit_body
  ops_loop append_position [] = ok []
  ops_loop append_position (snap ∷ relevant) =
      let content = read_append_content snap in
      let next = ops_loop (append_position + 1) relevant in
      let same = ops_loop append_position relevant in
      if is_append_stage snap
      then if is_empty content
        then same
        else (next >>= λ ops.
            ok (append_op (pos append_position) content snap.message_id_inner ∷ ops))
      else if is_edit_stage snap
      then (parse_edit_body snap >>= λ payload. same >>= λ ops.
          ok (edit_op payload.position payload.new_content snap.message_id_inner ∷ ops))
      else same

  -- The first loop of `collect_ops` with `relevant.reverse()`, over the chain of the letter.
  unfoldable pub relevant_snaps : List Snapshot → List Snapshot
  unfolding iter_filtered is_response_stage carries_op_payload
  relevant_snaps chain = reverse (
      select (λ snap. is_response_stage snap && carries_op_payload snap)
        (iter_filtered mail true chain))

  unfoldable pub collect_ops : List Snapshot → Result (List ResponseOp)
  unfolding ops_loop relevant_snaps
  collect_ops chain = ops_loop 0 (relevant_snaps chain)
