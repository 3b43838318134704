-- ===== src/Service/Funding.antt =====
-- service.rs: `signer_is_funded`, `require_evm_recovery_balance` and
-- `evm_reservation_covers_liability`. A decimal setting is what `parse::<u128>` makes of it, `none`
-- where that is an error.
use x402_facilitator.Prelude.{
  Option-cases, inl, inr, ℕ, ◌+◌, ◌*◌, ◌^◌, ◌-◌, ◌≤◌, ◌≡◌, ◌↔◌, Bool, true, false, Option, none,
  some, arith, leb, if◌then◌else◌,
}
use x402_facilitator.Journal.Types.{ChainKind, StoreError, Result, ok, err}
use x402_facilitator.Service.Readiness.{
  ReadinessState, set_relayer, set_reconciliation, can_settle, set_gate, atomic_gate_ready,
}

pub record Eip155Config : Type 0 where
  pub gas_limit : ℕ
  pub max_fee_per_gas_wei : Option ℕ

pub record ServiceConfig : Type 0 where
  pub chain_kind : ChainKind
  pub balance_hard_stop : Option ℕ
  pub reservation : Option ℕ
  pub eip155 : Option Eip155Config

abbrev pub max_u128 : ℕ
max_u128 = 2 ^ 128 - 1

abbrev pub checked_add : ℕ → ℕ → Option ℕ
checked_add a b = if leb (a + b) max_u128 then some (a + b) else none

abbrev pub checked_mul : ℕ → ℕ → Option ℕ
checked_mul a b = if leb (a * b) max_u128 then some (a * b) else none

abbrev pub at_least : Option ℕ → ℕ → Bool
at_least none balance = false
at_least (some required) balance = leb required balance

abbrev pub required_balance : ChainKind → ℕ → Option ℕ → Option ℕ
required_balance ChainKind.near hard_stop reservation = some hard_stop
required_balance ChainKind.eip155 hard_stop none = none
required_balance ChainKind.eip155 hard_stop (some reservation) = checked_add hard_stop reservation

unfoldable pub signer_is_funded : ServiceConfig → ℕ → Bool
signer_is_funded config balance = elim config.balance_hard_stop [
  | none ↦ false
  | some hard_stop ↦
      at_least (required_balance config.chain_kind hard_stop config.reservation) balance
]

abbrev pub recovery_requirement : Option ℕ → ℕ → Option ℕ
recovery_requirement none reservation = none
recovery_requirement (some hard_stop) reservation = checked_add hard_stop reservation

abbrev pub unready : ReadinessState → ReadinessState
unready r = set_reconciliation false (set_relayer false r)

-- The reservation is the row's.
unfoldable pub require_evm_recovery_balance :
    ServiceConfig → ℕ → ℕ → ReadinessState → Result (Unit {0}) × ReadinessState
unfolding set_gate
require_evm_recovery_balance config reserved balance r =
    if at_least (recovery_requirement config.balance_hard_stop reserved) balance
    then (ok tt, r)
    else (err StoreError.corrupt, unready r)

abbrev pub liability : ℕ → ℕ → ℕ → Option ℕ
liability gas_limit max_fee l1_fee = elim (checked_mul gas_limit max_fee) [
  | none ↦ none
  | some l2 ↦ checked_add l2 l1_fee
]

unfoldable pub evm_reservation_covers_liability : ServiceConfig → ℕ → Bool
evm_reservation_covers_liability config l1_fee = elim config.eip155 [
  | none ↦ false
  | some e ↦ elim e.max_fee_per_gas_wei [
    | none ↦ false
    | some max_fee ↦ elim config.reservation [
      | none ↦ false
      | some reservation ↦ at_least (liability e.gas_limit max_fee l1_fee) reservation
    ]
  ]
]

-- The settings that a liability is computed from.
pub record IsCovering (config : ServiceConfig) (l1_fee : ℕ) : Type 0 where
  pub settings : Eip155Config
  pub max_fee : ℕ
  pub reservation : ℕ
  pub configured : config.eip155 ≡ some settings
  pub fee_parses : settings.max_fee_per_gas_wei ≡ some max_fee
  pub reservation_parses : config.reservation ≡ some reservation
  pub covers : settings.gas_limit * max_fee + l1_fee ≤ reservation

covers-IsCovering :
    (config : ServiceConfig) (l1_fee : ℕ)
    → evm_reservation_covers_liability config l1_fee ≡ true
    → IsCovering config l1_fee
unfolding evm_reservation_covers_liability
covers-IsCovering config l1_fee h = elim (Option-cases config.eip155) [
  | inl p ↦ absurd (ground arith)
  | inr (x, p) ↦ elim (Option-cases x.max_fee_per_gas_wei) [
    | inl q ↦ absurd (ground arith)
    | inr (fee, q) ↦ elim (Option-cases config.reservation) [
      | inl t ↦ absurd (ground arith)
      | inr (n, t) ↦ record {
        settings = x;
        max_fee = fee;
        reservation = n;
        configured = p;
        fee_parses = q;
        reservation_parses = t;
        covers = ground arith;
      }
    ]
  ]
]

IsCovering-covers :
    (config : ServiceConfig) (l1_fee : ℕ)
    → ((n : ℕ) → config.reservation ≡ some n → n ≤ max_u128)
    → IsCovering config l1_fee
    → evm_reservation_covers_liability config l1_fee ≡ true
unfolding evm_reservation_covers_liability
IsCovering-covers config l1_fee m h =
    let bound = m h.reservation h.reservation_parses in
    let p = h.configured in
    let q = h.fee_parses in let t = h.reservation_parses in let k = h.covers in ground arith

-- With a u128 reservation, the test of a Base settlement passes exactly if the settings are there
-- and parse and the gas limit at the highest fee, together with the estimated L1 fee, is at most the
-- reservation, in exact arithmetic: neither a missing setting nor an overflow is taken for cover.
pub covers_liability_exact :
    (config : ServiceConfig) (l1_fee : ℕ)
    → ((n : ℕ) → config.reservation ≡ some n → n ≤ max_u128)
    → (evm_reservation_covers_liability config l1_fee ≡ true) ↔ IsCovering config l1_fee
covers_liability_exact config l1_fee m =
    (covers-IsCovering config l1_fee, IsCovering-covers config l1_fee m)

-- The hard stop parses, and the balance covers it together with the row's reservation.
abbrev pub IsRecoverable : ServiceConfig → ℕ → ℕ → Type 0
IsRecoverable config reserved balance =
    (hard_stop : ℕ) × (config.balance_hard_stop ≡ some hard_stop) × (hard_stop + reserved ≤ balance)

recovery-IsRecoverable :
    (config : ServiceConfig) (reserved balance : ℕ) (r : ReadinessState)
    → (require_evm_recovery_balance config reserved balance r).0 ≡ ok tt
    → IsRecoverable config reserved balance
unfolding require_evm_recovery_balance
recovery-IsRecoverable config reserved balance r h = elim (Option-cases config.balance_hard_stop) [
  | inl p ↦ absurd (ground arith)
  | inr (n, p) ↦ (n, p, ground arith)
]

IsRecoverable-recovery :
    (config : ServiceConfig) (reserved balance : ℕ) (r : ReadinessState)
    → balance ≤ max_u128
    → IsRecoverable config reserved balance
    → (require_evm_recovery_balance config reserved balance r).0 ≡ ok tt
unfolding require_evm_recovery_balance
IsRecoverable-recovery config reserved balance r m (n, p, k) = ground arith

-- A recovery is let pass, and then no gate moves, exactly if the hard stop parses and the balance
-- covers it together with the row's reservation. Whenever it is refused, the relayer and the
-- reconciliation gates are closed, so that no settlement may proceed.
pub require_evm_recovery_balance_guards :
    (config : ServiceConfig) (reserved balance : ℕ) (r : ReadinessState)
    → balance ≤ max_u128
    → (((require_evm_recovery_balance config reserved balance r).0 ≡ ok tt)
        ↔ IsRecoverable config reserved balance)
      × ((require_evm_recovery_balance config reserved balance r).0 ≡ ok tt
          → (require_evm_recovery_balance config reserved balance r).1 ≡ r)
      × ((x : StoreError)
          → (require_evm_recovery_balance config reserved balance r).0 ≡ err x
          → let after = (require_evm_recovery_balance config reserved balance r).1 in
            (atomic_gate_ready after.relayer ≡ false)
            × (atomic_gate_ready after.reconciliation ≡ false)
            × (can_settle after ≡ false))
unfolding require_evm_recovery_balance can_settle atomic_gate_ready
require_evm_recovery_balance_guards config reserved balance r m = (
  (
    recovery-IsRecoverable config reserved balance r,
    IsRecoverable-recovery config reserved balance r m,
  ),
  λ h. ground arith,
  λ x h. (ground arith, ground arith, ground arith),
)
