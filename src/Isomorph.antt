-- ===== src/Isomorph.antt =====
-- The continuity of a thread over an API that has no thread: the history that a client sends, the
-- stage that answers it, and the mark that joins the two
-- (ansible/roles/threlium/files/scripts/threlium/bridges/isomorph/history.py,
-- bridges/isomorph/snowflake_mid.py, states/egress_isomorph.py).
pub mod Mid
pub mod History
pub mod Egress
pub mod MidBack
pub mod Continuity
mod Tests
