-- ===== src/Examples.antt =====
-- Runs at concrete inputs.
mod Data
mod Journal
mod Claims
mod Chain
mod Services
mod Near
mod Settle
mod Envelopes
mod StoredRows
mod Workers
mod Recoveries
