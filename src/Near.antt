-- ===== src/Near.antt =====
-- receipt.rs and types.rs of crates/x402-chain-near and the NEAR side of chain.rs: the final outcome
-- of a NEAR transaction, the graph of its receipts, and what two readers and a broadcast report.
pub mod Types
pub mod Graph
pub mod Receipts
