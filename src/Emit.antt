-- ===== src/Emit.antt =====
-- What a stage writes into the headers of the letter that it emits
-- (ansible/roles/threlium/files/scripts/threlium/fsm_emit.py and fsm_emit_semantic.py).
pub mod Patch
pub mod Step
