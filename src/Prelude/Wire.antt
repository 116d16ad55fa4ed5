-- ===== src/Prelude/Wire.antt =====
-- The bases of the value objects (threlium/types/_core.py): what a raw string becomes.
use mathlib.Core.Option.{Option, none, some}
use mathlib.Core.List.{[], ◌∷◌}
use mathlib.Core.Bool.{◌||◌}
use threlium.Prelude.Tests.{◌==◌, if◌then◌else◌}
use threlium.Prelude.Lists.{any}
use threlium.Prelude.Raising.{Result, ok, raise, value_error}
use threlium.Prelude.Text.{Text, strip}

-- `_kv_dict`: the stripped value, if there is one; an empty dictionary otherwise.
unfoldable pub kv_value : Option Text → Option Text
kv_value none = none
kv_value (some raw) = elim (strip raw) [ [] ↦ none | c ∷ t ↦ some (c ∷ t) ]

-- `_RequiredNonEmpty.require`
unfoldable pub require : Option Text → Result Text
unfolding kv_value
require raw = elim (kv_value raw) [ none ↦ raise value_error | some t ↦ ok t ]

-- `_OptionalStripEmpty.parse`
unfoldable pub parse : Option Text → Text
unfolding kv_value
parse raw = elim (kv_value raw) [ none ↦ [] | some t ↦ t ]

-- `_OptionalStripEmpty.parse_present_optional`: the value is stripped before `_kv_dict` strips it
-- once more.
unfoldable pub parse_present_optional : Option Text → Option Text
unfolding kv_value
parse_present_optional none = none
parse_present_optional (some raw) = elim (strip raw) [ [] ↦ none | c ∷ t ↦ kv_value (some (c ∷ t)) ]

-- `_SingleLineHeaderWire.parse_present_optional`: a line break inside the value is an error.
unfoldable pub parse_single_line : Option Text → Result (Option Text)
unfolding kv_value
parse_single_line none = ok none
parse_single_line (some raw) = elim (strip raw) [
  | [] ↦ ok none
  | c ∷ t ↦
      if any (λ b. b == 13 || b == 10) (strip (c ∷ t))
      then raise value_error
      else ok (kv_value (some (strip (c ∷ t))))
]

-- `_SingleLineHeaderWire.parse`, of a value that is there.
unfoldable pub parse_line : Text → Result Text
unfolding parse strip
parse_line raw =
    if any (λ b. b == 13 || b == 10) (strip raw)
    then raise value_error
    else ok (parse (some (strip raw)))
