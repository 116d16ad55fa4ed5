-- ===== src/Chunk/Tests.antt =====
-- A document of one long part and a blank one, cut into chunks.
use threlium.Prelude.{◌≡◌, refl, none, some, List, [], ◌∷◌, ok, map, Result, raise}
use threlium.Prelude.Int.{pos}
use threlium.Prelude.Text.{codes, strip}
use threlium.Prelude.Wire.{parse_present_optional, parse_single_line}
use threlium.Chunk.Windows.{
  LightragChunkRecord, Document, ChunkLib, body_max_of, overlap_of, windows, windows_loop,
  threlium_email_chunking_func, step_of, document_prefix_parts, truncate_subject_wire, chunk_prefix,
  parts_loop, order_loop, record_of, body_tokens_of,
}
use threlium.Chunk.Records.{IsChunked}
use threlium.Chunk.Document.{threlium_email_chunking_func-IsChunked}

abbrev document : Document
document = record {
  thread_id = some (codes "t");
  from = none;
  to = none;
  subject = some (codes "s");
  message_id = none;
  in_reply_to = none;
  history_parts = codes "the quick brown fox jumps over the lazy dog" ∷ codes " " ∷ codes "ok" ∷ [];
}

-- A character is a token.
abbrev characters : ChunkLib
characters = record {
  parse_rfc822 = λ content. document;
  encode = λ text. text;
  decode = λ tokens. tokens;
  str = λ n. codes "n";
}

abbrev returned : Result (List LightragChunkRecord) → List LightragChunkRecord
returned (ok records) = records
returned (raise e) = []

abbrev chunks : List LightragChunkRecord
chunks = returned (threlium_email_chunking_func characters [] (pos 4) (pos 10))

cut : threlium_email_chunking_func characters [] (pos 4) (pos 10) ≡ ok chunks
unfolding threlium_email_chunking_func document_prefix_parts parse_present_optional
    parse_single_line truncate_subject_wire chunk_prefix parts_loop order_loop record_of
    body_tokens_of windows windows_loop body_max_of overlap_of step_of strip
cut = refl

-- The long part has two windows, and the blank one none.
three : map (λ r. r.chunk_order_index) chunks ≡ 0 ∷ 1 ∷ 2 ∷ []
unfolding threlium_email_chunking_func document_prefix_parts parse_present_optional
    parse_single_line truncate_subject_wire chunk_prefix parts_loop order_loop record_of
    body_tokens_of windows windows_loop body_max_of overlap_of step_of strip
three = refl

threlium_email_chunking_func-IsChunked_example :
    IsChunked characters
      (body_max_of (pos 10))
      (overlap_of (body_max_of (pos 10)) (pos 4))
      document.history_parts
      chunks
threlium_email_chunking_func-IsChunked_example =
    threlium_email_chunking_func-IsChunked characters [] (pos 4) (pos 10) cut
