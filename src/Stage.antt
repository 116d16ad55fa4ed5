-- ===== src/Stage.antt =====
-- The closed set of stages of the state machine and their addresses
-- (ansible/roles/threlium/files/scripts/threlium/types/fsm_stage.py).
pub mod Names
pub mod Address
mod Tests
