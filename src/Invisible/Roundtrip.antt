-- ===== src/Invisible/Roundtrip.antt =====
-- A mark at the end of a text is read back, whatever stands before it.
use threlium.Prelude.{
  ℕ, zero, suc, ◌+◌, ◌*◌, ◌/◌, ◌%◌, ◌≤◌, ◌<◌, ltb, ◌==◌, ◌≡◌, refl, ap, ◌∙◌, Bool, true, false, not,
  ◌&&◌, none, some, List, [], ◌∷◌, ◌++◌, arith, length, get_elem?, all, All, is_empty, Bool-cases,
  inl, inr,
}
use threlium.Prelude.Text.{Text}
use threlium.Invisible.Codec.{
  safe_invisible_alphabet, hex_digits, letters, encode_mid_safe, behind_prefix, behind_last_prefix,
  index_of, digits_value, decode_mid_safe,
}

-- No letter stands twice.
unique : Text → Bool
unique [] = true
unique (x ∷ xs) = all (λ y. not (x == y)) xs && unique xs

some_number-injective : {x y : ℕ} → some x ≡ some y → x ≡ y
some_number-injective e = cc

all-get_elem? :
    (p : ℕ → Bool) (xs : Text) (d : ℕ) {letter : ℕ}
    → get_elem? xs d ≡ some letter
    → all p xs ≡ true
    → p letter ≡ true
all-get_elem? p [] d e h = cc
all-get_elem? p (x ∷ xs) zero e h = rw (← some_number-injective e) (ground (arith, h))
all-get_elem? p (x ∷ xs) (suc d) e h = all-get_elem? p xs d e (ground (arith, h))

get_elem?-some : (xs : Text) (d : ℕ) → d < length xs → (letter : ℕ) × (get_elem? xs d ≡ some letter)
get_elem?-some [] d h = (0, ground (arith, h))
get_elem?-some (x ∷ xs) zero h = (x, refl)
get_elem?-some (x ∷ xs) (suc d) h = get_elem?-some xs d (omega (arith, h))

index_of-get_elem? :
    (xs : Text) (d : ℕ) {letter : ℕ}
    → unique xs ≡ true
    → get_elem? xs d ≡ some letter
    → index_of letter xs ≡ some d
unfolding index_of unique
index_of-get_elem? [] d u e = cc
index_of-get_elem? (x ∷ xs) zero u e = rw (← some_number-injective e) (ground arith)
index_of-get_elem? (x ∷ xs) (suc d) {letter} u e =
    let later = index_of-get_elem? xs d (ground (arith, u)) e in
    let differs = all-get_elem? (λ y. not (x == y)) xs d e (ground (arith, u)) in
    ground (arith, later, differs)

unfoldable IsAnchorFree : Text → Type 0
IsAnchorFree text = all (λ c. not (c == 65529)) text ≡ true

-- The value of digits behind a value.
unfoldable hex_value : ℕ → List ℕ → ℕ
hex_value value [] = value
hex_value value (d ∷ digits) = hex_value (value * 16 + d) digits

abbrev Digits : List ℕ → Type 0
Digits = All (λ d. d < 16)

digits_value-letters :
    (value : ℕ) (digits : List ℕ)
    → Digits digits
    → digits_value value (letters digits) ≡ some (hex_value value digits)
unfolding digits_value letters hex_value unique
digits_value-letters value [] h = refl
digits_value-letters value (d ∷ digits) h =
    let (letter, e) = get_elem?-some safe_invisible_alphabet d h.0 in
    rw (letters, e, digits_value, index_of-get_elem? safe_invisible_alphabet d refl e)
      (digits_value-letters (value * 16 + d) digits h.1)

letters-IsAnchorFree : (digits : List ℕ) → Digits digits → IsAnchorFree (letters digits)
unfolding letters IsAnchorFree
letters-IsAnchorFree [] h = refl
letters-IsAnchorFree (d ∷ digits) h =
    let (letter, e) = get_elem?-some safe_invisible_alphabet d h.0 in
    let free = all-get_elem? (λ c. not (c == 65529)) safe_invisible_alphabet d e refl in
    rw (letters, e) (ground (arith, free, letters-IsAnchorFree digits h.1))

behind_last_prefix-none : (text : Text) → IsAnchorFree text → behind_last_prefix text ≡ none
unfolding behind_last_prefix behind_prefix IsAnchorFree
behind_last_prefix-none [] h = refl
behind_last_prefix-none (c ∷ []) h = refl
behind_last_prefix-none (c ∷ d ∷ text) h =
    rw (behind_last_prefix-none (d ∷ text) (ground (arith, h))) (ground (arith, h))

behind_last_prefix-mark :
    (visible payload : Text)
    → IsAnchorFree payload
    → behind_last_prefix (visible ++ 65529 ∷ 8203 ∷ payload) ≡ some payload
unfolding behind_last_prefix behind_prefix IsAnchorFree
behind_last_prefix-mark [] payload h =
    rw (behind_last_prefix-none (8203 ∷ payload) (unfold IsAnchorFree in ground (arith, h))) refl
behind_last_prefix-mark (c ∷ visible) payload h =
    rw (behind_last_prefix-mark visible payload h) refl

hex_value-snoc :
    (value d : ℕ) (digits : List ℕ)
    → hex_value value (digits ++ d ∷ []) ≡ hex_value value digits * 16 + d
unfolding hex_value
hex_value-snoc value d [] = refl
hex_value-snoc value d (e ∷ digits) = hex_value-snoc (value * 16 + e) d digits

snoc-Digits : (digits : List ℕ) (d : ℕ) → Digits digits → d < 16 → Digits (digits ++ d ∷ [])
snoc-Digits [] d h k = (k, tt)
snoc-Digits (e ∷ digits) d h k = (h.0, snoc-Digits digits d h.1 k)

hex_digits-Digits :
    (fuel n : ℕ) → n ≤ fuel → Digits (hex_digits fuel n) × (hex_value 0 (hex_digits fuel n) ≡ n)
unfolding hex_digits hex_value
hex_digits-Digits zero n h = ((omega (arith, h), tt), omega arith)
hex_digits-Digits (suc fuel) n h = elim (Bool-cases (ltb n 16)) [
  | inl t ↦ rw t ((ground (arith, t), tt), omega arith)
  | inr f ↦
      let big : 16 ≤ n = ground (arith, f) in
      let (good, value) = hex_digits-Digits fuel (n / 16) (omega (arith, big, h)) in
      rw (f, hex_value-snoc 0 (n % 16) (hex_digits fuel (n / 16)), value)
        (snoc-Digits (hex_digits fuel (n / 16)) (n % 16) good (omega arith), omega arith)
]

-- A payload that decodes is not empty.
decode-payload :
    (text payload : Text) (n : ℕ)
    → behind_last_prefix text ≡ some payload
    → digits_value 0 payload ≡ some n
    → is_empty payload ≡ false
    → decode_mid_safe text ≡ some n
unfolding decode_mid_safe
decode-payload text [] n e v h = cc
decode-payload text (c ∷ payload) n e v h = rw (decode_mid_safe, e) v

letters-not_empty :
    (digits : List ℕ) → Digits digits → is_empty digits ≡ false → is_empty (letters digits) ≡ false
unfolding letters
letters-not_empty [] h k = cc
letters-not_empty (d ∷ digits) h k =
    let (letter, e) = get_elem?-some safe_invisible_alphabet d h.0 in rw (letters, e) refl

hex_digits-not_empty : (fuel n : ℕ) → is_empty (hex_digits fuel n) ≡ false
unfolding hex_digits
hex_digits-not_empty zero n = refl
hex_digits-not_empty (suc fuel) n = elim (Bool-cases (ltb n 16)) [
  | inl t ↦ rw t refl
  | inr f ↦ rw f (snoc (hex_digits fuel (n / 16)) (n % 16))
]
  where
    snoc : (digits : List ℕ) (d : ℕ) → is_empty (digits ++ d ∷ []) ≡ false
    snoc [] d = refl
    snoc (e ∷ digits) d = refl

-- A number that is written behind a text is read back, whatever the text is, also where it holds
-- marks of its own.
pub decode_mid_safe-encode_mid_safe :
    (visible : Text) (task_mid : ℕ)
    → decode_mid_safe (visible ++ encode_mid_safe task_mid) ≡ some task_mid
unfolding encode_mid_safe
decode_mid_safe-encode_mid_safe visible task_mid =
    let digits = hex_digits task_mid task_mid in
    let (good, value) = hex_digits-Digits task_mid task_mid (omega arith) in
    decode-payload (visible ++ encode_mid_safe task_mid) (letters digits) task_mid
      (behind_last_prefix-mark visible (letters digits) (letters-IsAnchorFree digits good))
      (digits_value-letters 0 digits good ∙ ap some value)
      (letters-not_empty digits good (hex_digits-not_empty task_mid task_mid))
