-- ===== src/Service.antt =====
-- The settlement service: its readiness gates (crates/x402-near-facilitator/src/leadership.rs) and
-- its guards and worker (crates/x402-near-facilitator/src/service.rs).
pub mod Readiness
pub mod Leadership
pub mod Failures
pub mod RateLimit
pub mod Funding
pub mod Relayers
pub mod World
pub mod Wire
pub mod Settle
pub mod Finalize
pub mod Worker
pub mod Recovery
pub mod StoredTransaction
