-- ===== src/Response.antt =====
-- The response buffer (ansible/roles/threlium/files/scripts/threlium/response/) and the two stages
-- that stand around it, states/response_edit.py and states/response_finalize.py: chunks of text that
-- the letters of a turn append, replace and delete, and the answer that is made of them.
pub mod Ops
pub mod Collect
pub mod Buffer
pub mod Counts
pub mod Edit
pub mod Finalize
mod Tests
