-- ===== src/Chunk/Windows.antt =====
-- `threlium_email_chunking_func` of threlium/lightrag_chunking.py: the windows over the tokens of
-- a part, and the records that are made of them. The tokenizer, the parser of a letter and the walk
-- over its parts are parameters.
use threlium.Prelude.{
  ℕ, zero, suc, ◌+◌, ◌-◌, max, min, leb, Option, none, some, List, [], ◌∷◌, ◌++◌, length, take,
  drop, is_empty, if◌then◌else◌, Result, ok, raise, value_error, ◌>>=◌,
}
use threlium.Prelude.Int.{ℤ, clamp}
use threlium.Prelude.Text.{Text, codes, strip}
use threlium.Prelude.Wire.{parse_present_optional, parse_single_line}

pub record LightragChunkRecord : Type 0 where
  pub tokens : ℕ
  pub content : Text
  pub chunk_order_index : ℕ

-- The headers of a document, and the texts of its history parts.
pub record Document : Type 0 where
  pub thread_id : Option Text
  pub from : Option Text
  pub to : Option Text
  pub subject : Option Text
  pub message_id : Option Text
  pub in_reply_to : Option Text
  pub history_parts : List Text

pub record ChunkLib : Type 0 where
  pub parse_rfc822 : Text → Document
  pub encode : Text → List ℕ
  pub decode : List ℕ → Text
  -- the text of a number
  pub str : ℕ → Text

-- `body_max`, `overlap` and `step`: a size that is negative is taken up by the lower bound.
unfoldable pub body_max_of : ℤ → ℕ
body_max_of chunk_token_size = max 32 (clamp chunk_token_size)

unfoldable pub overlap_of : ℕ → ℤ → ℕ
overlap_of body_max chunk_overlap_token_size = min (body_max - 1) (clamp chunk_overlap_token_size)

unfoldable pub step_of : ℕ → ℕ → ℕ
step_of body_max overlap = max 1 (body_max - overlap)

-- The loop over the starts: `rest` is what stands from the start on. There are no more starts than
-- tokens, since a step is at least 1.
unfoldable pub windows_loop : ℕ → ℕ → ℕ → List ℕ → List (List ℕ)
windows_loop body_max step zero rest = []
windows_loop body_max step (suc fuel) [] = []
windows_loop body_max step (suc fuel) (t ∷ rest) =
    let later = windows_loop body_max step fuel (drop step (t ∷ rest)) in
    take body_max (t ∷ rest) ∷ (if leb (length (t ∷ rest)) body_max then [] else later)

unfoldable pub windows : ℕ → ℕ → List ℕ → List (List ℕ)
windows body_max step body_tokens =
    if leb (length body_tokens) body_max
    then body_tokens ∷ []
    else windows_loop body_max step (length body_tokens) body_tokens

-- `_truncate_subject_wire`
unfoldable pub truncate_subject_wire : Option Text → Text
truncate_subject_wire subject =
    let s = strip (elim subject [ none ↦ [] | some w ↦ w ]) in
    if leb (length s) 400 then s else take 397 s ++ codes "..."

-- `f"{name}: {w.value if w is not None else ''}"`
abbrev pub header_line : Text → Option Text → Text
header_line name wire = name ++ codes ": " ++ elim wire [ none ↦ [] | some w ↦ w ]

-- `_document_prefix_parts`
unfoldable pub document_prefix_parts : Document → Text → Result (Text × Text)
document_prefix_parts em thread_val = parse_single_line em.subject >>= λ subj_w. ok (
  codes "X-Threlium-Thread-Id: "
      ++ thread_val
      ++ 10 ∷ header_line (codes "From") (parse_present_optional em.from)
      ++ 10 ∷ header_line (codes "To") (parse_present_optional em.to)
      ++ 10 ∷ (codes "Subject: " ++ truncate_subject_wire subj_w),
  header_line (codes "Message-ID") (parse_present_optional em.message_id)
      ++ 10 ∷ header_line (codes "In-Reply-To") (parse_present_optional em.in_reply_to),
)

module _ (lib : ChunkLib) where
  open lib use {parse_rfc822, encode, decode, str}

  -- `_chunk_prefix`, of a number that is not 0
  unfoldable pub chunk_prefix : Text × Text → ℕ → Text
  chunk_prefix (prefix_head, prefix_tail) chunk_number =
      prefix_head
      ++ 10 ∷ (codes "X-Threlium-LightRAG-Chunk: " ++ str chunk_number)
      ++ 10 ∷ prefix_tail

  -- The record of a window.
  unfoldable pub record_of : Text × Text → ℕ → ℕ → List ℕ → LightragChunkRecord
  record_of prefix overhead order window = record {
    tokens = overhead + length window;
    content = strip (chunk_prefix prefix (order + 1) ++ 10 ∷ 10 ∷ decode window);
    chunk_order_index = order;
  }

  -- The loop over the windows of a part.
  unfoldable pub order_loop : Text × Text → ℕ → ℕ → List (List ℕ) → List LightragChunkRecord
  order_loop prefix overhead order [] = []
  order_loop prefix overhead order (window ∷ later) =
      record_of prefix overhead order window ∷ order_loop prefix overhead (order + 1) later

  -- The tokens of a part, `none` for a part that is passed over.
  unfoldable pub body_tokens_of : Text → Option (List ℕ)
  body_tokens_of text =
      let plain = strip text in
      if is_empty plain then none else if is_empty (encode plain) then none else some (encode plain)

  -- The loop over the parts.
  unfoldable pub parts_loop : Text × Text → ℕ → ℕ → ℕ → ℕ → List Text → List LightragChunkRecord
  parts_loop prefix overhead body_max step order [] = []
  parts_loop prefix overhead body_max step order (part ∷ parts) = elim (body_tokens_of part) [
    | none ↦ parts_loop prefix overhead body_max step order parts
    | some body_tokens ↦
        let part_windows = windows body_max step body_tokens in
        order_loop prefix overhead order part_windows
        ++ parts_loop prefix overhead body_max step (order + length part_windows) parts
  ]

  unfoldable pub threlium_email_chunking_func : Text → ℤ → ℤ → Result (List LightragChunkRecord)
  threlium_email_chunking_func content chunk_overlap_token_size chunk_token_size =
      let em = parse_rfc822 (strip content) in
      elim (parse_present_optional em.thread_id) [
        | none ↦ raise value_error
        | some thread_val ↦ document_prefix_parts em thread_val >>= λ prefix.
            let overhead = length (encode (chunk_prefix prefix 1 ++ 10 ∷ 10 ∷ [])) in
            let body_max = body_max_of chunk_token_size in
            let step = step_of body_max (overlap_of body_max chunk_overlap_token_size) in
            let results = parts_loop prefix overhead body_max step 0 em.history_parts in
            if is_empty results then raise value_error else ok results
      ]
