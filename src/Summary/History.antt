-- ===== src/Summary/History.antt =====
-- `build_history_by_mid` and `split_oversized_in_place` of threlium/summarize_pack.py: the parts of
-- the history that a task names, cut to the size that a round can take.
use threlium.Prelude.{
  ℕ, zero, suc, ◌+◌, max, map, leb, not, List, [], ◌∷◌, ◌++◌, none, some, length, take, drop,
  is_empty, select, if◌then◌else◌, Result, ok, raise, value_error,
}
use threlium.Prelude.Text.{Text, codes, text_eq, strip}
use threlium.Irt.Snapshot.{from_optional_raw}
use threlium.Summary.Pack.{HistoryPart, History}

-- The tokenizer, and SHA-256 in hexadecimal digits.
pub record SummaryLib : Type 0 where
  pub encode : Text → List ℕ
  pub decode : List ℕ → Text
  pub sha256_hex : Text → Text

pub record SummarizeHistoryUnit : Type 0 where
  pub cid : Text
  pub text : Text
  pub source_mid : Text

-- `out.setdefault(inner, []).append(part)`
unfoldable pub append_part : Text → HistoryPart → History → History
unfolding text_eq
append_part inner part [] = (inner, part ∷ []) ∷ []
append_part inner part ((mid, parts) ∷ out) =
    if text_eq mid inner
    then (mid, parts ++ part ∷ []) ∷ out
    else (mid, parts) ∷ append_part inner part out

-- The loop of `build_history_by_mid`, with the number of the next object.
unfoldable pub build_loop : ℕ → History → List SummarizeHistoryUnit → Result History
unfolding append_part from_optional_raw
build_loop object out [] = ok out
build_loop object out (u ∷ units) = elim (from_optional_raw (some u.source_mid)) [
  | none ↦ raise value_error
  | some inner ↦
      build_loop (suc object)
        (append_part inner (record { object = object; cid = u.cid; text = u.text }) out) units
]

unfoldable pub build_history_by_mid : List SummarizeHistoryUnit → Result History
unfolding build_loop
build_history_by_mid units = build_loop 0 [] units

-- `[ids[i : i + step] for i in range(0, len(ids), step)]`
unfoldable pub slices : ℕ → ℕ → List ℕ → List (List ℕ)
slices step zero ids = []
slices step (suc fuel) [] = []
slices step (suc fuel) (i ∷ ids) = take step (i ∷ ids) ∷ slices step fuel (drop step (i ∷ ids))

module _ (lib : SummaryLib) where
  open lib use {encode, decode, sha256_hex}

  -- `count_tokens` with the tokenizer.
  unfoldable pub count_tokens : Text → ℕ
  count_tokens text = if is_empty text then 0 else length (encode text)

  -- `EnrichContentId.from_history_body`
  unfoldable pub from_history_body : Text → Text
  from_history_body text = codes "<" ++ (sha256_hex text ++ codes "@history>")

  -- `_split_text_by_tokens`
  unfoldable pub split_text_by_tokens : ℕ → Text → List Text
  unfolding slices
  split_text_by_tokens chunk_token_limit text =
      let ids = encode text in
      if leb (length ids) chunk_token_limit
      then text ∷ []
      else map decode (slices (max 1 chunk_token_limit) (length ids) ids)

  -- The texts of the parts that take the place of a part: its own, or its fragments that are not
  -- blank.
  unfoldable pub texts_of : ℕ → Text → List Text
  unfolding count_tokens split_text_by_tokens strip
  texts_of chunk_token_limit text =
      if leb (count_tokens text) chunk_token_limit
      then text ∷ []
      else select (λ frag. not (is_empty (strip frag)))
          (split_text_by_tokens chunk_token_limit text)

  -- The parts of fragments, from the number of the next object on.
  unfoldable pub fragment_parts : ℕ → List Text → List HistoryPart
  unfolding from_history_body
  fragment_parts object [] = []
  fragment_parts object (frag ∷ frags) =
      record { object = object; cid = from_history_body frag; text = frag }
      ∷ fragment_parts (suc object) frags

  -- The inner loop of `split_oversized_in_place`, with the number of the next object.
  unfoldable pub split_parts : ℕ → ℕ → List HistoryPart → ℕ × List HistoryPart
  unfolding count_tokens texts_of fragment_parts
  split_parts chunk_token_limit object [] = (object, [])
  split_parts chunk_token_limit object (p ∷ parts) =
      let frags = texts_of chunk_token_limit p.text in
      let kept = split_parts chunk_token_limit object parts in
      let cut = split_parts chunk_token_limit (object + length frags) parts in
      if leb (count_tokens p.text) chunk_token_limit
      then (kept.0, p ∷ kept.1)
      else (cut.0, fragment_parts object frags ++ cut.1)

  unfoldable pub split_oversized_in_place : ℕ → ℕ → History → History
  unfolding split_parts
  split_oversized_in_place chunk_token_limit object [] = []
  split_oversized_in_place chunk_token_limit object ((inner, parts) ∷ history) =
      let (next, new_parts) = split_parts chunk_token_limit object parts in
      (inner, new_parts) ∷ split_oversized_in_place chunk_token_limit next history
