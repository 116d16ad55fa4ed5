-- ===== src/Invisible/Tests.antt =====
-- Runs of the invisible marks.
use threlium.Prelude.{◌≡◌, refl, some, none, ◌++◌, [], ◌∷◌}
use threlium.Prelude.Text.{codes}
use threlium.Invisible.Codec.{encode_mid_safe, decode_mid_safe}
use threlium.Invisible.Roundtrip.{decode_mid_safe-encode_mid_safe}

decode_mid_safe-encode_mid_safe_example :
    decode_mid_safe (codes "hello" ++ encode_mid_safe 300) ≡ some 300
decode_mid_safe-encode_mid_safe_example = decode_mid_safe-encode_mid_safe (codes "hello") 300

-- 300 is 12c in hexadecimal.
encode_300 : encode_mid_safe 300 ≡ 65529 ∷ 8203 ∷ 8204 ∷ 8205 ∷ 65027 ∷ []
unfolding encode_mid_safe
encode_300 = refl

-- A visible character behind the mark hides it.
decode_hidden : decode_mid_safe (encode_mid_safe 300 ++ codes "x") ≡ none
unfolding decode_mid_safe encode_mid_safe
decode_hidden = refl
