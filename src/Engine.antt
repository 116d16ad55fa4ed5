-- ===== src/Engine.antt =====
-- The engine: what it does with one letter (ansible/roles/threlium/files/scripts/threlium/runners/
-- engine/fsm.py), the index that it reads and settles (nm.py), the runs of several workers side by
-- side, and the line protocol between a worker unit and the engine (enginewire.py,
-- runners/engine/wire_io.py, runners/engine/server.py, runners/engine_submit/).
pub mod Wire
pub mod Run
pub mod Store
pub mod System
pub mod Durable
pub mod Found
pub mod Submit
mod Tests
mod WireTests
