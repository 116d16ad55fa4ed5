-- ===== src/Summary.antt =====
-- The summaries of a context that has grown too long
-- (ansible/roles/threlium/files/scripts/threlium/summarize_pack.py and states/summarize_context.py):
-- parts of the history are packed into rounds under a token budget, and every round makes the next
-- rolling summary.
pub mod Pack
pub mod Greedy
pub mod History
pub mod Fed
pub mod Rounds
pub mod Context
pub mod Sources
pub mod Tagged
mod Tests
