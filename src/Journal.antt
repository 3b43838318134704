-- ===== src/Journal.antt =====
-- The durable settlement journal (crates/x402-near-facilitator/src/store.rs and migrations/*.sql).
pub mod Types
pub mod Ledger
pub mod Tables
pub mod Claim
pub mod Transitions
pub mod Rows
pub mod Effects
pub mod Accounting
pub mod Exclusive
pub mod Lifecycle
pub mod History
pub mod Run
