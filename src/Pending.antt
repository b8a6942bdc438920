-- ===== src/Pending.antt =====
-- public/public-pending-tx-store.js: the transactions that are kept until their outcome is known.
pub mod Entries
pub mod Store
pub mod Kept
pub mod Reading
pub mod Again
pub mod RoundTrip
pub mod Saved
mod Tests
