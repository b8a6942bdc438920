-- ===== src/Status.antt =====
-- public/transaction-status.js and public/cosmos-transaction-evidence.js: what is known of a transaction.
pub mod Receipts
pub mod Cosmos
pub mod Flow
pub mod Identity
mod Tests
