-- ===== src/Chunk/Document.antt =====
-- What `threlium_email_chunking_func` returns for a document.
use threlium.Prelude.{
  ℕ, ◌-◌, ◌≤◌, ◌<◌, ◌≡◌, sym, ap, ◌∙◌, Option, none, some, List, [], ◌∷◌, ◌++◌, length, get_elem?,
  is_empty, if◌then◌else◌, arith, All, Result, ok, raise, value_error, ◌>>=◌, >>=-eq-ok,
  ok-injective,
}
use threlium.Prelude.Among.{All-append}
use threlium.Prelude.Int.{ℤ}
use threlium.Prelude.Text.{Text, strip}
use threlium.Prelude.Wire.{parse_present_optional}
use threlium.Chunk.Windows.{
  LightragChunkRecord, ChunkLib, body_max_of, overlap_of, step_of, document_prefix_parts,
  chunk_prefix, parts_loop, threlium_email_chunking_func,
}
use threlium.Chunk.Cover.{IsCover, windows-IsCover}
use threlium.Chunk.Records.{
  Group, all_windows, IsChunked, order_loop-numbered, groups_of, groups_of-tokens, groups_of-All,
  parts_loop-groups_of,
}

-- A list that is returned where it is not empty.
not_empty :
    (records : List LightragChunkRecord) {results : List LightragChunkRecord}
    → (if is_empty records then raise value_error else ok records) ≡ ok results
    → records ≡ results
not_empty [] h = cc
not_empty (r ∷ records) h = ok-injective h

module _ (lib : ChunkLib) where
  all_windows-bounded :
      (body_max overlap : ℕ) (groups : List Group)
      → All (λ g. IsCover body_max overlap g.0 g.1) groups
      → All (λ w. length w ≤ body_max) (all_windows groups)
  all_windows-bounded body_max overlap [] h = tt
  all_windows-bounded body_max overlap ((tokens, ws) ∷ groups) h =
      All-append (λ w. length w ≤ body_max) ws (all_windows groups) (h.0.bounded)
        (all_windows-bounded body_max overlap groups h.1)

  overlap_of-below :
      (chunk overlap : ℤ) → overlap_of (body_max_of chunk) overlap < body_max_of chunk
  unfolding overlap_of body_max_of
  overlap_of-below chunk overlap = omega arith

  step_of-rest :
      (body_max overlap : ℕ) → overlap < body_max → step_of body_max overlap ≡ body_max - overlap
  unfolding step_of
  step_of-rest body_max overlap h = omega arith

  made :
      (prefix : Text × Text) (overhead : ℕ) (o c : ℤ) (parts : List Text)
      {results : List LightragChunkRecord}
      → parts_loop lib prefix overhead
          (body_max_of c)
          (step_of (body_max_of c) (overlap_of (body_max_of c) o))
          0
          parts
        ≡ results
      → IsChunked lib (body_max_of c) (overlap_of (body_max_of c) o) parts results
  made prefix overhead o c parts {results} e =
      let bm = body_max_of c in
      let ov = overlap_of bm o in
      let step = step_of bm ov in
      let below = overlap_of-below c o in
      let groups = groups_of lib bm step parts in
      let covers : All (λ g. IsCover bm ov g.0 g.1) groups =
        groups_of-All lib bm step (λ g. IsCover bm ov g.0 g.1)
          (λ tokens. rw (step_of-rest bm ov below) (windows-IsCover bm ov below tokens)) parts in
      let records = sym e ∙ parts_loop-groups_of lib bm step prefix overhead 0 parts in
      let bounded = all_windows-bounded bm ov groups covers in
      record {
        prefix = prefix;
        overhead = overhead;
        groups = groups;
        of_parts = groups_of-tokens lib bm step parts;
        covers = covers;
        records = records;
        numbered = λ i at.
            let (index, size) =
              order_loop-numbered lib prefix overhead bm 0 (all_windows groups) bounded i
                (ap (λ rs. get_elem? rs i) (sym records) ∙ at) in
            (index ∙ omega arith, size);
      }

  -- If threlium_email_chunking_func returns, then its records are those of windows over the parts that
  -- are not blank, in order: the windows of a part, without the tokens that they share, are its
  -- tokens, none has more than the limit, and the records are numbered from 0.
  pub threlium_email_chunking_func-IsChunked :
      (content : Text) (chunk_overlap_token_size chunk_token_size : ℤ)
      {results : List LightragChunkRecord}
      → threlium_email_chunking_func lib content chunk_overlap_token_size chunk_token_size
        ≡ ok results
      → IsChunked lib
          (body_max_of chunk_token_size)
          (overlap_of (body_max_of chunk_token_size) chunk_overlap_token_size)
          (lib.parse_rfc822 (strip content)).history_parts
          results
  unfolding threlium_email_chunking_func
  threlium_email_chunking_func-IsChunked content o c {results} h =
      by_thread (parse_present_optional (lib.parse_rfc822 (strip content)).thread_id) h
    where
      by_thread :
          (thread : Option Text)
          → (elim thread as (λ _. Result (List LightragChunkRecord)) [
            | none ↦ raise value_error
            | some thread_val ↦
                document_prefix_parts (lib.parse_rfc822 (strip content)) thread_val >>= λ prefix.
                (if is_empty (
                    parts_loop lib prefix
                      (length (lib.encode (chunk_prefix lib prefix 1 ++ 10 ∷ 10 ∷ [])))
                      (body_max_of c)
                      (step_of (body_max_of c) (overlap_of (body_max_of c) o))
                      0
                      (lib.parse_rfc822 (strip content)).history_parts)
                  then raise value_error
                  else ok (
                      parts_loop lib prefix
                        (length (lib.encode (chunk_prefix lib prefix 1 ++ 10 ∷ 10 ∷ [])))
                        (body_max_of c)
                        (step_of (body_max_of c) (overlap_of (body_max_of c) o))
                        0
                        (lib.parse_rfc822 (strip content)).history_parts))
          ])
            ≡ ok results
          → IsChunked lib
              (body_max_of c)
              (overlap_of (body_max_of c) o)
              (lib.parse_rfc822 (strip content)).history_parts
              results
      by_thread none k = cc
      by_thread (some thread_val) k =
          let (prefix, p, rest) =
            >>=-eq-ok (document_prefix_parts (lib.parse_rfc822 (strip content)) thread_val) _ k in
          made prefix _ o c _ (not_empty _ rest)
