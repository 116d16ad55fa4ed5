-- ===== src/Task.antt =====
-- The task ledger (ansible/roles/threlium/files/scripts/threlium/task/ and types/task_ledger.py):
-- subtasks named by the hash of their text, a lattice of statuses, the reduction of the operations
-- of a frame to a ledger, and the gate that the ledger puts before an answer.
pub mod Status
pub mod Ledger
pub mod Words
pub mod Ops
pub mod Reduce
pub mod Collect
pub mod Gate
pub mod Events
pub mod Order
mod Tests
pub mod Sticky
pub mod Validated
pub mod Accepted
pub mod Upsert
