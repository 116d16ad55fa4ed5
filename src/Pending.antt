-- ===== src/Pending.antt =====
-- The registry of the connections that wait for an answer
-- (bridges/isomorph/pending.py), and the push that answers them (bridges/isomorph/push.py).
pub mod Registry
pub mod Isolation
mod Tests
pub mod Push
