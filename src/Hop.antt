-- ===== src/Hop.antt =====
-- The hop budget (threlium/types/hop_cap.py): a stack of numbers in the header
-- `X-Threlium-Hop-Budget`, the last one for the current frame.
pub mod Line
mod Words
pub mod Stack
mod Tests
