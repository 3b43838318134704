-- ===== src/Evm/Depth.antt =====
-- provider.rs: `classify_confirmations`, `classify_reconciliation`, `safe_block_number` and
-- `reconcile_with_confirmations`. Blocks and depths are u64.
use x402_facilitator.Prelude.{
  ℕ, ◌+◌, ◌-◌, ◌^◌, true, Option, none, some, Outcome, ok, err, and_then, ltb, leb, ◌==◌, ◌||◌, not,
  min, if◌then◌else◌,
}
use x402_facilitator.Evm.Types.{
  ReceiptFacts, facts_eq, ReceiptObservation, TransactionObservation, EvmRpcError,
  EvmTerminalOutcome, EvmReconcileStatus, chain_id_fact,
}
use x402_facilitator.Evm.Readers.{merge_receipts, merge_transactions}
use x402_facilitator.Retry.{retry_transient}

abbrev pub max_u64 : ℕ
max_u64 = 2 ^ 64 - 1

-- `saturating_add(1)`.
abbrev pub next_saturating : ℕ → ℕ
next_saturating n = min (n + 1) max_u64

abbrev pub terminal_of : ReceiptFacts → ℕ → EvmTerminalOutcome
terminal_of r confirmations = record {
  success = r.success;
  tx_hash = r.tx_hash;
  block_number = r.block_number;
  block_hash = r.block_hash;
  confirmations = confirmations;
  gas_used = r.gas_used;
  fee_wei = r.fee_wei;
  execution_fee_wei = r.execution_fee_wei;
  l1_fee_wei = r.l1_fee_wei;
}

unfoldable pub classify_confirmations :
    ReceiptFacts → ℕ → ℕ → Outcome EvmRpcError EvmReconcileStatus
classify_confirmations r head_block required =
    if required == 0
    then err EvmRpcError.invalid_confirmations
    else (if ltb head_block r.block_number
        then err EvmRpcError.head_behind_receipt
        else (let confirmations = next_saturating (head_block - r.block_number) in
            if leb required confirmations
            then ok (EvmReconcileStatus.terminal (terminal_of r confirmations))
            else ok (EvmReconcileStatus.mined confirmations r.block_number)))

abbrev pub absent_status : TransactionObservation → EvmReconcileStatus
absent_status TransactionObservation.missing = EvmReconcileStatus.unknown
absent_status (TransactionObservation.pending n) = EvmReconcileStatus.pending
absent_status (TransactionObservation.mined n b h) = EvmReconcileStatus.pending

unfoldable pub classify_reconciliation :
    ReceiptObservation
    → TransactionObservation
    → Option ReceiptObservation
    → ℕ
    → ℕ
    → Outcome EvmRpcError EvmReconcileStatus
unfolding classify_confirmations facts_eq
classify_reconciliation ReceiptObservation.unknown t again head required = ok (absent_status t)
classify_reconciliation ReceiptObservation.pending t again head required =
    ok EvmReconcileStatus.pending
classify_reconciliation (ReceiptObservation.mined first) t (some (ReceiptObservation.mined second))
      head required =
    if facts_eq first second
    then classify_confirmations second head required
    else ok EvmReconcileStatus.pending
classify_reconciliation (ReceiptObservation.mined first) t again head required =
    ok EvmReconcileStatus.pending

-- What one reader answers to its reads, by the number of the attempt.
pub record Reader : Type 0 where
  pub receipt : ℕ → Outcome EvmRpcError ReceiptObservation
  pub transaction : ℕ → Outcome EvmRpcError TransactionObservation
  -- chain id and block number
  pub block_head : ℕ → Outcome EvmRpcError (ℕ × ℕ)
  pub receipt_again : ℕ → Outcome EvmRpcError ReceiptObservation

abbrev pub retried {ℓ} : {A : Type ℓ} → (ℕ → Outcome EvmRpcError A) → Outcome EvmRpcError A
retried call = retry_transient call (λ _. true)

abbrev pub head_of : ℕ → ℕ × ℕ → ℕ × ℕ → Outcome EvmRpcError ℕ
head_of chain p b =
    if not (p.0 == chain) || not (b.0 == chain)
    then err (EvmRpcError.reader_disagreement chain_id_fact)
    else ok (min p.1 b.1)

unfoldable pub safe_block_number : ℕ → Reader → Reader → Outcome EvmRpcError ℕ
safe_block_number chain primary backup =
    and_then (retried primary.block_head)
      λ p. and_then (retried backup.block_head) λ b. head_of chain p b

-- Only a mined receipt is read again.
abbrev pub recheck :
    Reader → Reader → ReceiptObservation → Outcome EvmRpcError (Option ReceiptObservation)
recheck primary backup (ReceiptObservation.mined r) =
    and_then (retried primary.receipt_again) λ p.
      and_then (retried backup.receipt_again) λ b. and_then (merge_receipts p b) λ m. ok (some m)
recheck primary backup _ = ok none

-- The reads, in the order in which their errors are reported.
unfoldable pub reconcile_reads : ℕ → Reader → Reader → ℕ → Outcome EvmRpcError EvmReconcileStatus
unfolding safe_block_number
reconcile_reads chain primary backup required = and_then (retried primary.receipt) λ p.
    and_then (retried backup.receipt) λ b. and_then (merge_receipts p b) λ first.
      and_then (retried primary.transaction) λ pt. and_then (retried backup.transaction) λ bt.
        and_then (merge_transactions pt bt) λ t.
          and_then (safe_block_number chain primary backup) λ head.
            and_then (recheck primary backup first)
              λ again. classify_reconciliation first t again head required

unfoldable pub reconcile_with_confirmations :
    ℕ → Reader → Reader → ℕ → Outcome EvmRpcError EvmReconcileStatus
unfolding reconcile_reads
reconcile_with_confirmations chain primary backup required =
    if required == 0
    then err EvmRpcError.invalid_confirmations
    else reconcile_reads chain primary backup required
