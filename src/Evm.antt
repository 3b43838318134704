-- ===== src/Evm.antt =====
-- crates/x402-chain-eip155-provider/src/provider.rs: what two independent readers say of a
-- submitted transaction, and when its outcome is final.
pub mod Types
pub mod Readers
pub mod Depth
pub mod Fees
pub mod Final
pub mod Envelope
