-- ===== src/Withdraw.antt =====
-- public/relay-withdraw-reconciliation.js: the hand-off of a prepared withdrawal to a relayer, and
-- the comparison of an included transaction with it.
pub mod Varint
pub mod Fields
pub mod Wire
pub mod Handoff
pub mod Message
pub mod Included
pub mod Match
pub mod Determined
mod Tests
