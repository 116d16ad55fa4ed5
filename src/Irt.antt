-- ===== src/Irt.antt =====
-- The chain of ancestors by `In-Reply-To` (threlium/irt_chain.py), its walk with the frames of
-- subagents cut out (threlium/thread_context_filter.py) and the depth of a message in it
-- (threlium/irt_subagent_classifier.py).
pub mod Snapshot
pub mod Filter
pub mod Frame
pub mod Depth
pub mod Chain
pub mod Materialize
pub mod Walk
mod Tests
