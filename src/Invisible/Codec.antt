-- ===== src/Invisible/Codec.antt =====
-- `encode_mid_safe` and `decode_mid_safe` of threlium/invisible_task_mid.py, on code points. A
-- hexadecimal digit is its number.
use threlium.Prelude.{
  ℕ, zero, suc, ◌+◌, ◌*◌, ◌/◌, ◌%◌, ltb, ◌==◌, ◌&&◌, Option, none, some, List, [], ◌∷◌, ◌++◌,
  get_elem?, if◌then◌else◌,
}
use threlium.Prelude.Text.{Text}

-- `SAFE_INVISIBLE_ALPHABET`
abbrev pub safe_invisible_alphabet : Text
safe_invisible_alphabet =
    8203 ∷ 8204 ∷ 8205 ∷ 8288 ∷ 8289 ∷ 8290 ∷ 8291 ∷ 8292 ∷ 65279 ∷ 65024 ∷ 65025 ∷ 65026 ∷ 65027
    ∷ 65028 ∷ 65029 ∷ 65039 ∷ []

-- `f"{n:x}"`, the digits; the fuel is a bound of the number.
unfoldable pub hex_digits : ℕ → ℕ → List ℕ
hex_digits zero n = n ∷ []
hex_digits (suc fuel) n =
    let rest = hex_digits fuel (n / 16) in if ltb n 16 then n ∷ [] else rest ++ (n % 16) ∷ []

-- `"".join(SAFE_INVISIBLE_ALPHABET[int(d, 16)] for d in hex_str)`
unfoldable pub letters : List ℕ → Text
letters [] = []
letters (d ∷ digits) = elim (get_elem? safe_invisible_alphabet d) [
  | none ↦ letters digits
  | some letter ↦ letter ∷ letters digits
]

-- `encode_mid_safe`, of a number that is not negative
unfoldable pub encode_mid_safe : ℕ → Text
unfolding hex_digits letters
encode_mid_safe task_mid = 65529 ∷ 8203 ∷ letters (hex_digits task_mid task_mid)

-- What stands behind `_SUFFIX_PREFIX` at the beginning of a text.
unfoldable pub behind_prefix : Text → Option Text
behind_prefix [] = none
behind_prefix (c ∷ []) = none
behind_prefix (c ∷ d ∷ text) = if c == 65529 && d == 8203 then some text else none

-- `text[text.rfind(_SUFFIX_PREFIX) + len(_SUFFIX_PREFIX):]`, `none` where `rfind` gives -1.
unfoldable pub behind_last_prefix : Text → Option Text
unfolding behind_prefix
behind_last_prefix [] = none
behind_last_prefix (c ∷ text) = elim (behind_last_prefix text) [
  | some payload ↦ some payload
  | none ↦ behind_prefix (c ∷ text)
]

-- `_ALPHABET_INDEX.get(ch)`
unfoldable pub index_of : ℕ → Text → Option ℕ
index_of ch [] = none
index_of ch (letter ∷ alphabet) =
    if letter == ch
    then some 0
    else elim (index_of ch alphabet) [ none ↦ none | some i ↦ some (suc i) ]

-- The loop over the payload and `int(…, 16)`, with the number of the digits so far.
unfoldable pub digits_value : ℕ → Text → Option ℕ
unfolding index_of
digits_value value [] = some value
digits_value value (ch ∷ payload) = elim (index_of ch safe_invisible_alphabet) [
  | none ↦ none
  | some idx ↦ digits_value (value * 16 + idx) payload
]

unfoldable pub decode_mid_safe : Text → Option ℕ
unfolding behind_last_prefix digits_value
decode_mid_safe text = elim (behind_last_prefix text) [
  | none ↦ none
  | some [] ↦ none
  | some (ch ∷ payload) ↦ digits_value 0 (ch ∷ payload)
]
