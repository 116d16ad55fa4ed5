-- ===== src/Prelude/Json.antt =====
-- A decoded JSON value, as `json.decode` with no type gives it. Numbers and booleans are the text
-- that `str` makes of them.
use mathlib.Core.Option.{Option, none, some}
use mathlib.Core.Bool.{Bool, false}
use threlium.Prelude.Tests.{if◌then◌else◌}
use threlium.Prelude.Text.{Text, text_eq}

mutual
  pub data Json : Type 0 where
    null : Json
    str : Text → Json
    scalar : Text → Json
    arr : Items → Json
    obj : Fields → Json

  pub data Items : Type 0 where
    nil : Items
    cons : Json → Items → Items

  pub data Fields : Type 0 where
    end : Fields
    field : Text → Json → Fields → Fields

-- `d.get(key)`, `none` where the key is missing
unfoldable pub get_field : Text → Fields → Option Json
unfolding text_eq
get_field key end = none
get_field key (field k v fields) = if text_eq k key then some v else get_field key fields

-- `d.get(key)`, with `None` for a key that is missing
unfoldable pub get_or_null : Text → Fields → Json
unfolding get_field
get_or_null key fields = elim (get_field key fields) [ none ↦ null | some v ↦ v ]

-- `v == text`
unfoldable pub is_text : Json → Text → Bool
unfolding text_eq
is_text (str s) text = text_eq s text
is_text _ text = false
