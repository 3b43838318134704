-- ===== src/Chain.antt =====
-- chain.rs: `broadcast`, `rebroadcast`, `reconcile_status` and `durable_submission` of
-- `ChainProvider`, with the helpers that turn a final outcome of NEAR or Base into the neutral one.
-- The reasons that `Indeterminate` and `Rejected` carry are left out. The parsers of hashes and
-- accounts, the formatting of hashes and the equality of final outcomes are those of the NEAR and
-- alloy crates, and are fields of `Codec`.
pub mod Verdicts
pub mod Reconcile
pub mod Stored
use x402_facilitator.Near.Receipts.{validate_final_outcome_identity, interpret_final_outcome}
use x402_facilitator.Evm.Types.{EvmRpcError, EvmTerminalOutcome, EvmReconcileStatus}
use x402_facilitator.Near.Types.{
  ExecutionOutcome, FinalExecutionOutcome, NearRpcError, Validated, TransactionLookup,
  SuccessfulTransferReceipt, is_definitive_failure,
}
use x402_facilitator.Service.World.{BroadcastOutcome, TerminalOutcome}
use x402_facilitator.Evm.Depth.{Reader, reconcile_with_confirmations}
use x402_facilitator.Journal.Types.{Bytes, Text}
use x402_facilitator.Service.Recovery.{ReconcileVerdict}
use x402_facilitator.Prelude.{
  ℕ, zero, suc, ◌+◌, ◌-◌, ◌*◌, ◌≤◌, ◌<◌, ◌≡◌, ◌≢◌, refl, ap, sym, ◌∙◌, Bool, true, false, not, ◌&&◌,
  ◌||◌, Option, none, some, List, [], ◌∷◌, ◌++◌, map, ltb, leb, ◌==◌, if◌then◌else◌, arith, inl,
  inr, ◌⊎◌, ◌↔◌, ok, err, and_then, Outcome, any, filter, length, is_some, Bool-cases, Option-cases,
  if_cases, All, min, option_map, ◌^◌, or_option,
}

-- What the code uses of the primitives of the two chains.
pub record Codec : Type 0 where
  pub parse_hash : Text → Option ℕ
  pub parse_account : Text → Option ℕ
  pub parse_b256 : Text → Option ℕ
  pub hash_text : ℕ → Text
  pub b256_text : ℕ → Text
  pub same_outcome : FinalExecutionOutcome → FinalExecutionOutcome → Bool

-- `NearChainProvider`, by what its calls answer.
pub record NearProvider : Type 0 where
  pub relayer : ℕ
  pub broadcast_exact : Bytes → Outcome NearRpcError TransactionLookup
  pub query_transaction : ℕ → ℕ → Outcome NearRpcError TransactionLookup
  pub query_transaction_backup : ℕ → ℕ → Outcome NearRpcError TransactionLookup

-- The Base provider, by its two readers of a transaction.
pub record EvmProvider : Type 0 where
  pub chain_id : ℕ
  pub primary : ℕ → Reader
  pub backup : ℕ → Reader
  pub required_confirmations : ℕ

pub data ChainProvider : Type 0 where
  near : NearProvider → ChainProvider
  evm : EvmProvider → ChainProvider

pub data RecoveryPolicy : Type 0 where
  near_finality : RecoveryPolicy
  evm_confirmations : ℕ → RecoveryPolicy

pub data NearInterpretation : Type 0 where
  terminal : TerminalOutcome → NearInterpretation
  indeterminate : NearInterpretation

-- `saturating_add` of a u64 and of a u128.
abbrev pub saturating : ℕ → ℕ → ℕ → ℕ
saturating bits a b = min (a + b) (2 ^ bits - 1)

abbrev pub cost_of : List ExecutionOutcome → ℕ × ℕ → ℕ × ℕ
cost_of [] cost = cost
cost_of (r ∷ rs) cost =
    cost_of rs (saturating 64 cost.0 r.gas_burnt, saturating 128 cost.1 r.tokens_burnt)

unfoldable pub execution_cost_near : FinalExecutionOutcome → ℕ × ℕ
execution_cost_near o =
    cost_of o.receipts_outcome (o.transaction_outcome.gas_burnt, o.transaction_outcome.tokens_burnt)

unfoldable pub evm_terminal_to_neutral : Codec → EvmTerminalOutcome → TerminalOutcome
evm_terminal_to_neutral k o = record {
  success = o.success;
  tx_hash = k.b256_text o.tx_hash;
  gas_units = o.gas_used;
  fee_atomic = o.fee_wei;
  mined_block_number = some o.block_number;
  mined_block_hash = option_map k.b256_text o.block_hash;
  confirmations = some o.confirmations;
}

abbrev pub near_terminal : Codec → FinalExecutionOutcome → ℕ → Bool → TerminalOutcome
near_terminal k o hash success = record {
  success = success;
  tx_hash = k.hash_text hash;
  gas_units = (execution_cost_near o).0;
  fee_atomic = (execution_cost_near o).1;
  mined_block_number = none;
  mined_block_hash = none;
  confirmations = none;
}

-- The receipt graph's verdict; `none` would be an interpretation that does not end.
abbrev pub graph_verdict :
    Codec
    → FinalExecutionOutcome
    → ℕ
    → Option (Validated SuccessfulTransferReceipt)
    → NearInterpretation
graph_verdict k o hash none = NearInterpretation.indeterminate
graph_verdict k o hash (some (ok r)) = NearInterpretation.terminal (near_terminal k o hash true)
graph_verdict k o hash (some (err e)) =
    if is_definitive_failure e
    then NearInterpretation.terminal (near_terminal k o hash false)
    else NearInterpretation.indeterminate

unfoldable pub interpret_near_final :
    Codec → FinalExecutionOutcome → ℕ → ℕ → ℕ → ℕ → NearInterpretation
interpret_near_final k o hash signer payer asset =
    elim (validate_final_outcome_identity o hash signer payer) [
      | err e ↦ NearInterpretation.indeterminate
      | ok u ↦ graph_verdict k o hash (interpret_final_outcome o payer asset)
    ]

abbrev pub near_final_outcome :
    Outcome NearRpcError TransactionLookup → Option FinalExecutionOutcome
near_final_outcome (ok (TransactionLookup.final o)) = some o
near_final_outcome _ = none

abbrev pub near_lookup_unknown : Outcome NearRpcError TransactionLookup → Bool
near_lookup_unknown (ok TransactionLookup.unknown) = true
near_lookup_unknown (err NearRpcError.transaction_unknown) = true
near_lookup_unknown _ = false

abbrev pub is_pending : Outcome NearRpcError TransactionLookup → Bool
is_pending (ok (TransactionLookup.pending s)) = true
is_pending _ = false

abbrev pub final_outcomes_conflict :
    Codec → Option FinalExecutionOutcome → Option FinalExecutionOutcome → Bool
final_outcomes_conflict k (some p) (some b) = not (k.same_outcome p b)
final_outcomes_conflict k _ _ = false

-- `ReconcileStatus`: the verdict, and whether the backup alone had the final outcome.
abbrev pub ReconcileStatus : Type 0
ReconcileStatus = ReconcileVerdict × Bool

abbrev pub verdict : ReconcileVerdict → ReconcileStatus
verdict v = (v, false)

abbrev pub near_verdict : NearInterpretation → ReconcileVerdict
near_verdict (NearInterpretation.terminal o) = ReconcileVerdict.terminal o
near_verdict NearInterpretation.indeterminate = ReconcileVerdict.indeterminate

-- Both lookups, when the hash and the accounts have parsed.
unfoldable pub near_lookups_status :
    Codec
    → NearProvider
    → ℕ
    → ℕ
    → ℕ
    → Outcome NearRpcError TransactionLookup
    → Outcome NearRpcError TransactionLookup
    → ReconcileStatus
near_lookups_status k p hash payer asset primary backup =
    let primary_final = near_final_outcome primary in
    let backup_final = near_final_outcome backup in
    if final_outcomes_conflict k primary_final backup_final
    then verdict ReconcileVerdict.conflict
    else elim (or_option primary_final backup_final) [
      | some o ↦ (
        near_verdict (interpret_near_final k o hash p.relayer payer asset),
        not (is_some primary_final) && is_some backup_final,
      )
      | none ↦
          if is_pending primary || is_pending backup
          then verdict ReconcileVerdict.pending
          else (if near_lookup_unknown primary && near_lookup_unknown backup
              then verdict ReconcileVerdict.unknown
              else verdict ReconcileVerdict.ambiguous)
    ]

abbrev pub near_reconcile_status :
    Codec → NearProvider → Option ℕ → Option ℕ → Option ℕ → Option ℕ → ReconcileStatus
near_reconcile_status k p (some hash) (some signer) (some payer) (some asset) =
    near_lookups_status k p hash payer asset (p.query_transaction hash signer)
      (p.query_transaction_backup hash signer)
near_reconcile_status k p _ _ _ _ = verdict ReconcileVerdict.ambiguous

unfoldable pub reconcile_hash_with_confirmations :
    Codec → EvmProvider → Text → ℕ → Outcome EvmRpcError EvmReconcileStatus
reconcile_hash_with_confirmations k p hash required = elim (k.parse_b256 hash) [
  | none ↦ err EvmRpcError.invalid_transaction_hash
  | some h ↦ reconcile_with_confirmations p.chain_id (p.primary h) (p.backup h) required
]

abbrev pub evm_verdict : Codec → Outcome EvmRpcError EvmReconcileStatus → ReconcileVerdict
evm_verdict k (ok (EvmReconcileStatus.terminal o)) =
    ReconcileVerdict.terminal (evm_terminal_to_neutral k o)
evm_verdict k (ok EvmReconcileStatus.pending) = ReconcileVerdict.pending
evm_verdict k (ok EvmReconcileStatus.unknown) = ReconcileVerdict.unknown
evm_verdict k (ok _) = ReconcileVerdict.pending
evm_verdict k (err e) = ReconcileVerdict.ambiguous

unfoldable pub reconcile_status :
    Codec → ChainProvider → Text → Text → Text → Text → RecoveryPolicy → ReconcileStatus
reconcile_status k (ChainProvider.near p) hash signer payer asset RecoveryPolicy.near_finality =
    near_reconcile_status k p (k.parse_hash hash) (k.parse_account signer) (k.parse_account payer)
      (k.parse_account asset)
reconcile_status k (ChainProvider.near p) hash signer payer asset
      (RecoveryPolicy.evm_confirmations n) =
    verdict ReconcileVerdict.ambiguous
reconcile_status k (ChainProvider.evm p) hash signer payer asset RecoveryPolicy.near_finality =
    verdict ReconcileVerdict.ambiguous
reconcile_status k (ChainProvider.evm p) hash signer payer asset
      (RecoveryPolicy.evm_confirmations n) =
    verdict (evm_verdict k (reconcile_hash_with_confirmations k p hash n))

abbrev pub near_outcome : NearInterpretation → BroadcastOutcome
near_outcome (NearInterpretation.terminal o) = BroadcastOutcome.terminal o
near_outcome NearInterpretation.indeterminate = BroadcastOutcome.pending

-- What a send of the stored or prepared bytes on NEAR came to.
abbrev pub near_sent :
    (FinalExecutionOutcome → BroadcastOutcome)
    → Outcome NearRpcError TransactionLookup
    → BroadcastOutcome
near_sent read (ok (TransactionLookup.final o)) = read o
near_sent read (err NearRpcError.transaction_rejected) = BroadcastOutcome.rejected
near_sent read _ = BroadcastOutcome.pending

-- The details of the prepared transaction and of the verified payment, by the chain.
pub data Detail : Type 0 where
  -- transaction hash, payer, asset
  near : ℕ → ℕ → ℕ → Detail
  evm mismatched : Detail

unfoldable pub broadcast : Codec → ChainProvider → Bytes → Detail → BroadcastOutcome
broadcast k (ChainProvider.near p) bytes (Detail.near hash payer asset) =
    near_sent (λ o. near_outcome (interpret_near_final k o hash p.relayer payer asset))
      (p.broadcast_exact bytes)
broadcast k _ bytes _ = BroadcastOutcome.pending

abbrev pub rebroadcast_final :
    Codec → NearProvider → FinalExecutionOutcome → Option ℕ → Option ℕ → Option ℕ → BroadcastOutcome
rebroadcast_final k p o (some hash) (some payer) (some asset) =
    near_outcome (interpret_near_final k o hash p.relayer payer asset)
rebroadcast_final k p o _ _ _ = BroadcastOutcome.pending

unfoldable pub rebroadcast : Codec → ChainProvider → Bytes → Text → Text → Text → BroadcastOutcome
rebroadcast k (ChainProvider.near p) bytes hash payer asset =
    near_sent
      (λ o.
        rebroadcast_final k p o (k.parse_hash hash) (k.parse_account payer) (k.parse_account asset))
      (p.broadcast_exact bytes)
rebroadcast k (ChainProvider.evm p) bytes hash payer asset = BroadcastOutcome.pending

unfoldable pub recovery_policy : ChainProvider → RecoveryPolicy
recovery_policy (ChainProvider.near p) = RecoveryPolicy.near_finality
recovery_policy (ChainProvider.evm p) = RecoveryPolicy.evm_confirmations p.required_confirmations
