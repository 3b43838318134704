-- ===== src/Evm/Fees.antt =====
-- provider.rs: `bounded_fee_envelope`. Fees are u128 values that are only compared.
use x402_facilitator.Prelude.{
  ℕ, ◌≤◌, ◌≡◌, Outcome, ok, err, ltb, ◌==◌, ◌||◌, max, if◌then◌else◌, arith,
}

pub data EvmPrepareError : Type 0 where
  invalid_fee_estimate fee_cap_exceeded : EvmPrepareError

pub record EvmFeeEnvelope : Type 0 where
  pub gas_limit : ℕ
  pub max_fee_per_gas : ℕ
  pub max_priority_fee_per_gas : ℕ

unfoldable pub bounded_fee_envelope : ℕ → ℕ → ℕ → ℕ → ℕ → ℕ → Outcome EvmPrepareError EvmFeeEnvelope
bounded_fee_envelope gas_limit cap primary_max primary_priority backup_max backup_priority =
    if primary_max == 0
      || (backup_max == 0 || (ltb primary_max primary_priority || ltb backup_max backup_priority))
    then err EvmPrepareError.invalid_fee_estimate
    else (if ltb cap (max primary_max backup_max)
        then err EvmPrepareError.fee_cap_exceeded
        else ok (record {
          gas_limit = gas_limit;
          max_fee_per_gas = max primary_max backup_max;
          max_priority_fee_per_gas = max primary_priority backup_priority;
        }))

-- A fee envelope keeps the gas limit, pays at least one wei and at most the cap, covers what both
-- readers ask for, and its priority fee is no more than its fee.
pub bounded_fee_envelope_capped :
    (gas_limit cap pm pp bm bp : ℕ) (e : EvmFeeEnvelope)
    → bounded_fee_envelope gas_limit cap pm pp bm bp ≡ ok e
    → (e.gas_limit ≡ gas_limit)
      × (1 ≤ e.max_fee_per_gas)
      × (e.max_fee_per_gas ≤ cap)
      × (pm ≤ e.max_fee_per_gas)
      × (bm ≤ e.max_fee_per_gas)
      × (pp ≤ e.max_priority_fee_per_gas)
      × (bp ≤ e.max_priority_fee_per_gas)
      × (e.max_priority_fee_per_gas ≤ e.max_fee_per_gas)
unfolding bounded_fee_envelope
bounded_fee_envelope_capped gas_limit cap pm pp bm bp e h = ground arith
