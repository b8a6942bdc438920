-- ===== src/Actions.antt =====
-- public/value-moving-action.js: one value-moving action at a time.
pub mod Gate
pub mod Turns
mod Tests
