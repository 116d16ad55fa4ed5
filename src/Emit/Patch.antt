-- ===== src/Emit/Patch.antt =====
-- The managed headers of a simple step: `managed_patch_simple_fsm_step` of
-- threlium/fsm_emit_semantic.py with its callees in threlium/fsm_emit.py.
use threlium.Prelude.{
  ℕ, Bool, false, ◌&&◌, ◌||◌, ◌==◌, Option, none, some, [], ◌∷◌, ◌++◌, reverse, is_empty,
  if◌then◌else◌, Result, ok, ◌>>=◌,
}
use threlium.Prelude.Int.{ℤ}
use threlium.Prelude.Text.{Text, strip}
use threlium.Prelude.Wire.{parse_present_optional}
use threlium.Irt.Snapshot.{ends_with_gt}
use threlium.Hop.Line.{IntText, advance_simple_step}

-- What is read of the headers of an incoming letter.
pub record Incoming : Type 0 where
  pub from : Option Text
  pub message_id : Option Text
  pub hop_budget : Option Text

-- The headers of the letter that goes out.
pub record Managed : Type 0 where
  pub in_reply_to : Option Text
  pub hop_budget : Text

-- `s.strip('<> ')`
abbrev is_bracket : ℕ → Bool
is_bracket c = c == 60 || c == 62 || c == 32

unfoldable pub lstrip_brackets : Text → Text
lstrip_brackets [] = []
lstrip_brackets (c ∷ s) = if is_bracket c then lstrip_brackets s else c ∷ s

unfoldable pub strip_brackets : Text → Text
unfolding lstrip_brackets
strip_brackets s = reverse (lstrip_brackets (reverse (lstrip_brackets s)))

-- `s.startswith("<") and s.endswith(">")`
unfoldable pub is_bracketed : Text → Bool
unfolding ends_with_gt
is_bracketed [] = false
is_bracketed (c ∷ s) = c == 60 && ends_with_gt (c ∷ s)

-- `_msgid_normalized`
unfoldable pub msgid_normalized : Option Text → Option Text
unfolding strip is_bracketed strip_brackets
msgid_normalized none = none
msgid_normalized (some raw) =
    let s = strip raw in
    if is_empty s
    then none
    else some (if is_bracketed s then s else 60 ∷ (strip_brackets s ++ 62 ∷ []))

-- `irt_wire_from_incoming_message_id`
unfoldable pub irt_wire_from_incoming_message_id : Incoming → Option Text
unfolding parse_present_optional msgid_normalized
irt_wire_from_incoming_message_id incoming =
    elim (msgid_normalized (parse_present_optional incoming.message_id)) [
      | none ↦ none
      | some prev_mid ↦ parse_present_optional (some prev_mid)
    ]

-- `HopBudgetLine.parse_from_email`
unfoldable pub hop_line : Incoming → Text
unfolding parse_present_optional
hop_line incoming = elim (parse_present_optional incoming.hop_budget) [ none ↦ [] | some w ↦ w ]

module _ (it : IntText) (budget_root : ℤ) where
  -- `managed_patch_simple_fsm_step`. The wire that is there is not blank.
  unfoldable pub managed_patch_simple_fsm_step : Incoming → Result Managed
  unfolding irt_wire_from_incoming_message_id advance_simple_step hop_line
  managed_patch_simple_fsm_step incoming =
      advance_simple_step it budget_root (hop_line incoming) >>= λ hop.
      ok (record { in_reply_to = irt_wire_from_incoming_message_id incoming; hop_budget = hop })
