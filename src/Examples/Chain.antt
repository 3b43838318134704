-- ===== src/Examples/Chain.antt =====
-- Runs of the Base readers, the fee envelope and the retries.
use x402_facilitator.Retry.{
  IsAnswerOf, rpc_retry_delays, retry_while_transient, retry_while_transient-IsAnswerOf, retry_loop,
}
use x402_facilitator.Evm.Fees.{EvmFeeEnvelope, bounded_fee_envelope, bounded_fee_envelope_capped}
use x402_facilitator.Evm.Readers.{merge_receipts, merge_transactions}
use x402_facilitator.Evm.Final.{
  IsFinal, classify_confirmations_monotone, reconcile_with_confirmations-IsFinal,
  classify_confirmations_terminal,
}
use x402_facilitator.Evm.Depth.{
  classify_confirmations, reconcile_with_confirmations, terminal_of, Reader, reconcile_reads,
  safe_block_number, classify_reconciliation,
}
use x402_facilitator.Evm.Types.{
  EvmTerminalOutcome, ReceiptFacts, TransactionObservation, facts_eq, ReceiptObservation,
  EvmReconcileStatus, EvmRpcError,
}
use x402_facilitator.Prelude.{
  if◌then◌else◌, ◌==◌, if◌then◌else◌, ◌==◌, ◌≡◌, refl, true, some, arith, ok, err, ◌↔◌, ◌-◌, ◌+◌, ℕ,
  ◌≤◌, ltb,
}

abbrev mined_facts : ReceiptFacts
mined_facts = record {
  block_number = 300;
  block_hash = some 31;
  success = true;
  tx_hash = 9002;
  gas_used = 4;
  fee_wei = 5;
  execution_fee_wei = 3;
  l1_fee_wei = 2;
}

-- Only the first read of the receipt fails.
abbrev reader : ℕ → Reader
reader head = record {
  receipt = λ k. if k == 0 then err EvmRpcError.rpc else ok (ReceiptObservation.mined mined_facts);
  transaction = λ k. ok (TransactionObservation.mined 9 300 31);
  block_head = λ k. ok (8453, head);
  receipt_again = λ k. ok (ReceiptObservation.mined mined_facts);
}

reconciled :
    reconcile_with_confirmations 8453 (reader 311) (reader 320) 10
    ≡ ok (EvmReconcileStatus.terminal (terminal_of mined_facts 12))
unfolding reconcile_with_confirmations reconcile_reads safe_block_number retry_while_transient
    retry_loop merge_receipts merge_transactions classify_reconciliation classify_confirmations
    facts_eq
reconciled = refl

reconcile_with_confirmations-IsFinal_example :
    IsFinal 8453 (reader 311) (reader 320) 10 (terminal_of mined_facts 12)
reconcile_with_confirmations-IsFinal_example =
    reconcile_with_confirmations-IsFinal 8453 (reader 311) (reader 320) 10
      (terminal_of mined_facts 12) reconciled

classify_confirmations_terminal_example :
    (classify_confirmations mined_facts 311 10
      ≡ ok (EvmReconcileStatus.terminal (terminal_of mined_facts 12)))
    ↔ ((1 ≤ 10)
        × (300 ≤ 311)
        × (300 + 10 ≤ 311 + 1)
        × (terminal_of mined_facts 12 ≡ terminal_of mined_facts (311 - 300 + 1)))
classify_confirmations_terminal_example =
    classify_confirmations_terminal mined_facts 311 10 (terminal_of mined_facts 12) (omega arith)

deep_enough :
    classify_confirmations mined_facts 311 10
    ≡ ok (EvmReconcileStatus.terminal (terminal_of mined_facts 12))
unfolding classify_confirmations
deep_enough = refl

classify_confirmations_monotone_example :
    (o' : EvmTerminalOutcome) × (classify_confirmations mined_facts 400 10
      ≡ ok (EvmReconcileStatus.terminal o'))
    × (12 ≤ o'.confirmations)
    × (o'.success ≡ true)
    × (o'.tx_hash ≡ 9002)
classify_confirmations_monotone_example =
    classify_confirmations_monotone mined_facts 311 400 10 (terminal_of mined_facts 12)
      (omega arith) deep_enough

abbrev envelope : EvmFeeEnvelope
envelope = record { gas_limit = 100; max_fee_per_gas = 30; max_priority_fee_per_gas = 4 }

enveloped : bounded_fee_envelope 100 50 20 4 30 3 ≡ ok envelope
unfolding bounded_fee_envelope
enveloped = refl

bounded_fee_envelope_capped_example :
    (envelope.gas_limit ≡ 100)
    × (1 ≤ 30)
    × (30 ≤ 50)
    × (20 ≤ 30)
    × (30 ≤ 30)
    × (4 ≤ 4)
    × (3 ≤ 4)
    × (4 ≤ 30)
bounded_fee_envelope_capped_example =
    bounded_fee_envelope_capped 100 50 20 4 30 3 envelope enveloped

-- Transient until the third attempt.
retry_while_transient-IsAnswerOf_example :
    IsAnswerOf
      (λ k. k)
      (λ n. ltb n 2)
      rpc_retry_delays
      0
      (retry_while_transient (λ k. k) (λ n. ltb n 2))
retry_while_transient-IsAnswerOf_example = retry_while_transient-IsAnswerOf (λ k. k) (λ n. ltb n 2)
