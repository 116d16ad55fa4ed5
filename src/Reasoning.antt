-- ===== src/Reasoning.antt =====
-- The stage that asks the model for the next step (threlium/states/reasoning.py): the routes that it
-- may take, and the loop that asks again until the model takes one of them.
pub mod Routes
pub mod Decide
pub mod Bounds
mod Tests
