-- ===== src/Task/Words.antt =====
-- `TaskSubtaskText.normalized` and `TaskSubtaskContentId.from_text` of threlium/types/task_ledger.py.
-- SHA-256 is a parameter.
use mathlib.Core.List.{append-nil}
use mathlib.Core.Path.{subst}
use threlium.Prelude.{
  ℕ, ◌≡◌, refl, ap, ◌∙◌, false, List, [], ◌∷◌, ◌++◌, if◌then◌else◌, take, All, Bool-cases, inl, inr,
}
use threlium.Prelude.Text.{Text, is_space}

-- A word goes before the words that follow it, unless it is empty.
abbrev pub push : Text → List Text → List Text
push [] ws = ws
push (c ∷ w) ws = (c ∷ w) ∷ ws

-- The characters up to the first white space, and the words behind it.
unfoldable pub split_head : Text → Text × List Text
split_head [] = ([], [])
split_head (c ∷ cs) =
    let (w, ws) = split_head cs in if is_space c then ([], push w ws) else (c ∷ w, ws)

-- `s.split()`
unfoldable pub split : Text → List Text
unfolding split_head
split s = let (w, ws) = split_head s in push w ws

-- `" ".join(ws)`
unfoldable pub join_space : List Text → Text
join_space [] = []
join_space (w ∷ []) = w
join_space (w ∷ v ∷ ws) = w ++ (32 ∷ join_space (v ∷ ws))

unfoldable pub normalized : Text → Text
unfolding split join_space
normalized s = join_space (split s)

-- `_CONTENT_ID_HEX_LEN`
abbrev pub content_id_hex_len : ℕ
content_id_hex_len = 12

module _ (sha256_hex : Text → Text) where
  unfoldable pub from_text : Text → Text
  unfolding normalized
  from_text text = take content_id_hex_len (sha256_hex (normalized text))

-- A word is not empty and holds no white space.
abbrev pub NoSpace : Text → Type 0
NoSpace = All (λ c. is_space c ≡ false)

abbrev pub IsWord : Text → Type 0
IsWord [] = ⊥
IsWord (c ∷ w) = NoSpace (c ∷ w)

push-IsWord : (w : Text) (ws : List Text) → NoSpace w → All IsWord ws → All IsWord (push w ws)
push-IsWord [] ws h k = k
push-IsWord (c ∷ w) ws h k = (h, k)

split_head-IsWord : (s : Text) → NoSpace (split_head s).0 × All IsWord (split_head s).1
unfolding split_head
split_head-IsWord [] = (tt, tt)
split_head-IsWord (c ∷ cs) =
    let ih = split_head-IsWord cs in
    elim (Bool-cases (is_space c)) [
      | inl e ↦ rw e (tt, push-IsWord _ _ ih.0 ih.1)
      | inr e ↦ rw e ((e, ih.0), ih.1)
    ]

split-IsWord : (s : Text) → All IsWord (split s)
unfolding split
split-IsWord s = push-IsWord _ _ (split_head-IsWord s).0 (split_head-IsWord s).1

-- A word in front of a white space is split off whole.
split_head-append :
    (w s : Text) → NoSpace w → split_head (w ++ s) ≡ (w ++ (split_head s).0, (split_head s).1)
unfolding split_head
split_head-append [] s h = refl
split_head-append (c ∷ w) s h = rw (h.0, split_head-append w s h.1)

split-word-space : (w s : Text) → IsWord w → split (w ++ (32 ∷ s)) ≡ w ∷ split s
unfolding split
split-word-space [] s h = absurd h
split-word-space (c ∷ w) s h =
    rw (split_head-append (c ∷ w) (32 ∷ s) h) (unfold split_head is_space in rw (append-nil w))

split-word : (w : Text) → IsWord w → split w ≡ w ∷ []
unfolding split
split-word [] h = absurd h
split-word (c ∷ w) h =
    subst (λ t. (let (v, ws) = split_head t in push v ws) ≡ (c ∷ w) ∷ []) (append-nil (c ∷ w))
      (rw (split_head-append (c ∷ w) [] h) (unfold split_head in rw (append-nil w)))

-- Words that are joined are split again.
pub split-join_space : (ws : List Text) → All IsWord ws → split (join_space ws) ≡ ws
unfolding join_space
split-join_space [] h = unfold split split_head in refl
split-join_space (w ∷ []) h = split-word w h.0
split-join_space (w ∷ v ∷ ws) h =
    split-word-space w (join_space (v ∷ ws)) h.0 ∙ ap (◌∷◌ w) (split-join_space (v ∷ ws) h.1)

-- Normalising keeps the words of a text, so the content id of a text is that of its normal form,
-- whatever the hash is.
pub from_text-normalized :
    (sha256_hex : Text → Text) (s : Text)
    → (split (normalized s) ≡ split s)
      × (from_text sha256_hex (normalized s) ≡ from_text sha256_hex s)
from_text-normalized sha256_hex s =
    let same : split (normalized s) ≡ split s =
      unfold normalized in split-join_space (split s) (split-IsWord s) in
    (
      same,
      unfold from_text normalized in
          ap (λ ws. take content_id_hex_len (sha256_hex (join_space ws))) same,
    )
