-- ===== src/Isomorph/MidBack.antt =====
-- A snowflake is read back from the message id that it gives.
use mathlib.Core.List.{append_assoc}
use threlium.Prelude.{
  ℕ, ◌≡◌, refl, sym, ap, ◌∙◌, Bool, true, false, ◌||◌, ◌==◌, some, [], ◌∷◌, ◌++◌, any, is_empty,
  arith, ok, ok-injective, Bool-cases, inl, inr,
}
use threlium.Prelude.Text.{Text, codes, text_eq, strip, is_space}
use threlium.Prelude.Strip.{strip-ends}
use threlium.Prelude.Wire.{parse_present_optional}
use threlium.Prelude.Strip.{parse_present_optional-stripped}
use threlium.Irt.Snapshot.{ends_with_gt, drop_last}
use threlium.Isomorph.Mid.{
  MidLib, from_native, rpartition_at, msgid_group, snowflake_to_mid, mid_to_snowflake,
}

-- Base 62 gives a word of letters and digits, and what is encoded is read back.
pub record MidLaws (lib : MidLib) : Type 0 where
  pub left_head :
      (n : ℕ) → (c : ℕ) × (l : Text) × (lib.snowflake_left n ≡ c ∷ l) × (is_space c ≡ false)
  pub left_plain : (n : ℕ) → any (λ d. d == 60 || d == 62 || d == 64) (lib.snowflake_left n) ≡ false
  pub left_back : (n : ℕ) → lib.snowflake_of_left (lib.snowflake_left n) ≡ some n

-- `<left@localhost>`
abbrev pub angled : Text → Text
angled left = 60 ∷ (left ++ codes "@localhost>")

angled-strip : (left : Text) → strip (angled left) ≡ angled left
unfolding is_space
angled-strip left =
    rw (← append_assoc left (codes "@localhost") (codes ">"))
      (strip-ends 60 62 (left ++ codes "@localhost") refl refl)

-- The id of a snowflake is the word in brackets.
snowflake_to_mid-angled :
    (lib : MidLib) (n : ℕ) {mid : Text}
    → snowflake_to_mid lib n ≡ ok mid
    → mid ≡ angled (lib.snowflake_left n)
unfolding snowflake_to_mid from_native
snowflake_to_mid-angled lib n h =
    let left = lib.snowflake_left n in
    let present : parse_present_optional (some (angled left)) ≡ some (angled left) =
      parse_present_optional-stripped 60 (left ++ codes "@localhost>") (angled-strip left) in
    sym (ok-injective (rw (snowflake_to_mid, from_native, present) at h))

ends_with_gt-snoc : (s : Text) → ends_with_gt (s ++ 62 ∷ []) ≡ true
unfolding ends_with_gt
ends_with_gt-snoc [] = refl
ends_with_gt-snoc (c ∷ []) = refl
ends_with_gt-snoc (c ∷ d ∷ s) = ends_with_gt-snoc (d ∷ s)

drop_last-snoc : (s : Text) (d : ℕ) → drop_last (s ++ d ∷ []) ≡ s
unfolding drop_last
drop_last-snoc [] d = refl
drop_last-snoc (c ∷ []) d = refl
drop_last-snoc (c ∷ e ∷ s) d = ap (◌∷◌ c) (drop_last-snoc (e ∷ s) d)

any-append : (p : ℕ → Bool) (a b : Text) → any p (a ++ b) ≡ (any p a || any p b)
any-append p [] b = refl
any-append p (c ∷ a) b = ground (arith, any-append p a b)

-- A weaker test finds no more.
any-weaken :
    (p q : ℕ → Bool)
    → ((c : ℕ) → q c ≡ false → p c ≡ false)
    → (s : Text) → any q s ≡ false
    → any p s ≡ false
any-weaken p q f [] h = refl
any-weaken p q f (c ∷ s) h = elim (Bool-cases (q c)) [
  | inl t ↦ let x = rw t at h in cc
  | inr n ↦ rw (f c n) (any-weaken p q f s (rw n at h))
]

rpartition_at-localhost :
    (left : Text)
    → any (λ d. d == 64) left ≡ false
    → rpartition_at (left ++ codes "@localhost") ≡ (left, codes "localhost")
unfolding rpartition_at
rpartition_at-localhost [] h = refl
rpartition_at-localhost (c ∷ left) h = elim (Bool-cases (c == 64)) [
  | inl t ↦ let x = rw t at h in cc
  | inr n ↦
      let ih = rpartition_at-localhost left (rw n at h) in
      let found : any (λ d. d == 64) (left ++ codes "@localhost") ≡ true = marked left in
      rw (found, ih) refl
]
  where
    marked : (s : Text) → any (λ d. d == 64) (s ++ codes "@localhost") ≡ true
    marked s = rw any-append (or_true (any (λ d. d == 64) s))
      where
        or_true : (b : Bool) → (b || true) ≡ true
        or_true b = ground arith

msgid_group-angled :
    (left : Text)
    → any (λ d. d == 60 || d == 62) left ≡ false
    → (c : ℕ) (l : Text) → left ≡ c ∷ l
    → msgid_group (angled left) ≡ some (left ++ codes "@localhost")
unfolding msgid_group
msgid_group-angled left h c l e =
    let inner : Text = left ++ codes "@localhost" in
    let split : left ++ codes "@localhost>" ≡ inner ++ 62 ∷ [] =
      sym (append_assoc left (codes "@localhost") (codes ">")) in
    let plain : any (λ d. d == 60 || d == 62) inner ≡ false =
      any-append (λ d. d == 60 || d == 62) left (codes "@localhost") ∙ ap (λ b. b || false) h in
    let full : is_empty inner ≡ false = rw e refl in
    rw (split, ends_with_gt-snoc inner, drop_last-snoc inner 62, full, plain) refl

strip-inner :
    (c : ℕ) (l : Text)
    → is_space c ≡ false
    → strip (c ∷ (l ++ codes "@localhost")) ≡ c ∷ (l ++ codes "@localhost")
unfolding is_space
strip-inner c l letter =
    rw (← append_assoc l (codes "@localhos") (codes "t"))
      (strip-ends c 116 (l ++ codes "@localhos") letter refl)

pub mid_to_snowflake-snowflake_to_mid :
    (lib : MidLib)
    → MidLaws lib
    → (n : ℕ) {mid : Text} → snowflake_to_mid lib n ≡ ok mid
    → mid_to_snowflake lib mid ≡ some n
unfolding mid_to_snowflake text_eq
mid_to_snowflake-snowflake_to_mid lib laws n h =
    let left = lib.snowflake_left n in
    let (c, l, e, letter) = laws.left_head n in
    let group =
      msgid_group-angled left
        (any-weaken (λ d. d == 60 || d == 62) _ (λ d p. ground arith) left (laws.left_plain n)) c l
        e in
    let stripped : strip (left ++ codes "@localhost") ≡ left ++ codes "@localhost" =
      rw e (strip-inner c l letter) in
    let parts =
      rpartition_at-localhost left
        (any-weaken (λ d. d == 64) _ (λ d p. ground arith) left (laws.left_plain n)) in
    rw
      (snowflake_to_mid-angled lib n h, angled-strip left, group, stripped, parts, laws.left_back n)
      refl
