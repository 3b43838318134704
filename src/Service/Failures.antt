-- ===== src/Service/Failures.antt =====
-- service.rs: `classify_readiness_failure` and `ReadinessFailureTracker`.
use x402_facilitator.Prelude.{
  ℕ, ◌≡◌, ◌↔◌, Bool, true, not, Option, none, some, arith, if◌then◌else◌,
}

-- `ReadinessFailureClass`, the classes that this function names and those of an observation.
pub data RelayerPolicyReadiness : Type 0 where
  active inactive lookup_failed : RelayerPolicyReadiness

pub data ReadinessFailureClass : Type 0 where
  rpc_unavailable signer_head_unavailable relayer_policy_lookup_failed : ReadinessFailureClass
  relayer_policy_inactive signer_balance_hard_stop : ReadinessFailureClass
  observed : ℕ → ReadinessFailureClass

abbrev unwrap_or : Option ReadinessFailureClass → ReadinessFailureClass → ReadinessFailureClass
unwrap_or none d = d
unwrap_or (some f) d = f

abbrev policy_failure : RelayerPolicyReadiness → Bool → Option ReadinessFailureClass
policy_failure RelayerPolicyReadiness.lookup_failed funded =
    some ReadinessFailureClass.relayer_policy_lookup_failed
policy_failure RelayerPolicyReadiness.inactive funded =
    some ReadinessFailureClass.relayer_policy_inactive
policy_failure RelayerPolicyReadiness.active funded =
    if not funded then some ReadinessFailureClass.signer_balance_hard_stop else none

unfoldable pub classify_readiness_failure :
    Bool
    → Option ReadinessFailureClass
    → Bool
    → RelayerPolicyReadiness
    → Bool
    → Option ReadinessFailureClass
classify_readiness_failure rpc_ready observation signer_ready policy funded =
    if not rpc_ready
    then some (unwrap_or observation ReadinessFailureClass.rpc_unavailable)
    else (if not signer_ready
        then some (unwrap_or observation ReadinessFailureClass.signer_head_unavailable)
        else policy_failure policy funded)

-- No failure is reported exactly if the chain is reachable, the signer's head is known, its policy
-- is active and it is funded.
pub classify_readiness_failure-none :
    (rpc_ready signer_ready funded : Bool) (observation : Option ReadinessFailureClass)
    (policy : RelayerPolicyReadiness)
    → (classify_readiness_failure rpc_ready observation signer_ready policy funded ≡ none) ↔ (
        (rpc_ready ≡ true)
        × (signer_ready ≡ true)
        × (policy ≡ RelayerPolicyReadiness.active)
        × (funded ≡ true))
unfolding classify_readiness_failure
classify_readiness_failure-none r s f o p = (λ h. ground arith, λ (a, b, c, d). ground arith)
