-- ===== src/Examples/Services.antt =====
-- Runs of the gates, the guards and the tables of the service.
use x402_facilitator.Journal.Types.{ChainKind, StoreError, Result}
use x402_facilitator.Service.Relayers.{
  relayer_is_active, call_relayers, RelayerCall, quarantine_relayer,
  quarantine_relayer-relayer_is_active,
}
use x402_facilitator.Service.Funding.{
  Eip155Config, ServiceConfig, evm_reservation_covers_liability, require_evm_recovery_balance,
  IsCovering, IsRecoverable, max_u128, covers_liability_exact, require_evm_recovery_balance_guards,
}
use x402_facilitator.Service.RateLimit.{admitted, admitted_bounded}
use x402_facilitator.Service.Failures.{
  classify_readiness_failure, RelayerPolicyReadiness, classify_readiness_failure-none,
}
use x402_facilitator.Service.Leadership.{
  IsFenced, run_leadership, LeadershipEvent, started, run_leadership-IsFenced,
}
use x402_facilitator.Service.Readiness.{
  atomic_gate_ready, can_settle, call_gates, unobserved, GateCall, ReadinessGate, set_leadership,
  set_leadership-can_settle,
}
use x402_facilitator.Prelude.{◌≡◌, refl, true, false, some, none, [], ◌∷◌, arith, ◌↔◌, ◌≤◌, ℕ}

set_leadership-can_settle_example :
    can_settle (
      call_gates
        (GateCall.call ReadinessGate.leadership true ∷ GateCall.call ReadinessGate.rpc true ∷ [])
        (set_leadership false unobserved))
    ≡ false
set_leadership-can_settle_example =
    set_leadership-can_settle
      (GateCall.call ReadinessGate.leadership true ∷ GateCall.call ReadinessGate.rpc true ∷ [])
      unobserved refl

run_leadership-IsFenced_example :
    IsFenced
      (LeadershipEvent.connection_failed ∷ LeadershipEvent.acquired ∷ LeadershipEvent.heartbeat
        ∷ [])
      (run_leadership
        (LeadershipEvent.connection_failed ∷ LeadershipEvent.acquired ∷ LeadershipEvent.heartbeat
          ∷ [])
        (started unobserved))
run_leadership-IsFenced_example =
    run_leadership-IsFenced
      (LeadershipEvent.connection_failed ∷ LeadershipEvent.acquired ∷ LeadershipEvent.heartbeat
        ∷ [])
      unobserved

classify_readiness_failure-none_example :
    (classify_readiness_failure true none true RelayerPolicyReadiness.active true ≡ none) ↔ (
      (true ≡ true)
      × (true ≡ true)
      × (RelayerPolicyReadiness.active ≡ RelayerPolicyReadiness.active)
      × (true ≡ true))
classify_readiness_failure-none_example =
    classify_readiness_failure-none true true true none RelayerPolicyReadiness.active

admitted_bounded_example : admitted none 2 (1000 ∷ 1001 ∷ 1002 ∷ 1003 ∷ []) ≤ 2
admitted_bounded_example =
    admitted_bounded 2 1000 (1001 ∷ 1002 ∷ 1003 ∷ []) (omega arith)
      ((omega arith, omega arith), ((omega arith, omega arith), ((omega arith, omega arith), tt)))

abbrev base_gas : Eip155Config
base_gas = record { gas_limit = 100; max_fee_per_gas_wei = some 30 }

abbrev base_config : ServiceConfig
base_config = record {
  chain_kind = ChainKind.eip155;
  balance_hard_stop = some 1000;
  reservation = some 3500;
  eip155 = some base_gas;
}

base_fits : (n : ℕ) → base_config.reservation ≡ some n → n ≤ max_u128
base_fits n h = ground (arith, h)

covers_liability_exact_example :
    (evm_reservation_covers_liability base_config 400 ≡ true) ↔ IsCovering base_config 400
covers_liability_exact_example = covers_liability_exact base_config 400 base_fits

require_evm_recovery_balance_guards_example :
    (((require_evm_recovery_balance base_config 3500 5000 unobserved).0 ≡ Result.ok tt)
      ↔ IsRecoverable base_config 3500 5000)
    × ((require_evm_recovery_balance base_config 3500 5000 unobserved).0 ≡ Result.ok tt
        → (require_evm_recovery_balance base_config 3500 5000 unobserved).1 ≡ unobserved)
    × ((x : StoreError)
        → (require_evm_recovery_balance base_config 3500 5000 unobserved).0 ≡ Result.err x
        → let after = (require_evm_recovery_balance base_config 3500 5000 unobserved).1 in
          (atomic_gate_ready after.relayer ≡ false)
          × (atomic_gate_ready after.reconciliation ≡ false)
          × (can_settle after ≡ false))
require_evm_recovery_balance_guards_example =
    require_evm_recovery_balance_guards base_config 3500 5000 unobserved (omega arith)

quarantine_relayer-relayer_is_active_example :
    relayer_is_active 20 21 22 (
      call_relayers
        (RelayerCall.upsert 20 21 22 ∷ [])
        (quarantine_relayer 20 21 22 5 9 (λ n a k. none)))
    ≡ false
quarantine_relayer-relayer_is_active_example =
    quarantine_relayer-relayer_is_active (RelayerCall.upsert 20 21 22 ∷ []) 20 21 22 5 9
      (λ n a k. none)
