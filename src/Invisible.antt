-- ===== src/Invisible.antt =====
-- The marks that are not shown at the end of a messenger's text
-- (ansible/roles/threlium/files/scripts/threlium/invisible_task_mid.py).
pub mod Codec
pub mod Roundtrip
mod Tests
