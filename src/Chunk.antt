-- ===== src/Chunk.antt =====
-- The chunks that a document of letters is cut into for the retrieval library
-- (threlium/lightrag_chunking.py).
pub mod Windows
pub mod Cover
pub mod Records
pub mod Document
mod Tests
