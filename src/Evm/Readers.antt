-- ===== src/Evm/Readers.antt =====
-- provider.rs: `merge_receipts`, `merge_transactions`, `merge_head_values` and
-- `merge_head_snapshot`, which join what the primary and the backup reader say.
use x402_facilitator.Prelude.{
  ℕ, ◌≡◌, true, Outcome, ok, err, ◌==◌, ◌&&◌, ◌||◌, not, if◌then◌else◌, min, arith,
}
use x402_facilitator.Evm.Types.{
  ReceiptFacts, facts_eq, ReceiptObservation, TransactionObservation, EndpointHead, EvmHead,
  EvmHeadSnapshotFailure, EvmRpcError, receipt_facts, transaction_facts,
}

unfoldable pub merge_receipts :
    ReceiptObservation → ReceiptObservation → Outcome EvmRpcError ReceiptObservation
unfolding facts_eq
merge_receipts ReceiptObservation.unknown ReceiptObservation.unknown = ok ReceiptObservation.unknown
merge_receipts (ReceiptObservation.mined p) (ReceiptObservation.mined b) =
    if facts_eq p b
    then ok (ReceiptObservation.mined p)
    else err (EvmRpcError.reader_disagreement receipt_facts)
merge_receipts _ _ = ok ReceiptObservation.pending

abbrev disagreement : Outcome EvmRpcError TransactionObservation
disagreement = err (EvmRpcError.reader_disagreement transaction_facts)

unfoldable pub merge_transactions :
    TransactionObservation → TransactionObservation → Outcome EvmRpcError TransactionObservation
merge_transactions TransactionObservation.missing known = ok known
merge_transactions known TransactionObservation.missing = ok known
merge_transactions (TransactionObservation.pending p) (TransactionObservation.pending b) =
    if p == b then ok (TransactionObservation.pending p) else disagreement
merge_transactions (TransactionObservation.pending p) (TransactionObservation.mined n block hash) =
    if p == n then ok (TransactionObservation.pending n) else disagreement
merge_transactions (TransactionObservation.mined n block hash) (TransactionObservation.pending p) =
    if p == n then ok (TransactionObservation.pending n) else disagreement
merge_transactions (TransactionObservation.mined n block hash)
      (TransactionObservation.mined m block' hash') =
    if n == m && (block == block' && hash == hash')
    then ok (TransactionObservation.mined n block hash)
    else disagreement

unfoldable pub merge_head_values :
    ℕ → ℕ → EndpointHead → EndpointHead → Outcome EvmHeadSnapshotFailure EvmHead
merge_head_values expected_chain_id signer_address primary backup =
    if not (primary.chain_id == expected_chain_id) || not (backup.chain_id == expected_chain_id)
    then err EvmHeadSnapshotFailure.chain_id_mismatch
    else (if not (primary.pending_account_nonce == backup.pending_account_nonce)
        then err EvmHeadSnapshotFailure.pending_nonce_disagreement
        else ok (record {
          block_number = min primary.block_number backup.block_number;
          account_nonce = primary.pending_account_nonce;
          gas_balance_wei = min primary.gas_balance_wei backup.gas_balance_wei;
          signer_address = signer_address;
        }))

unfoldable pub merge_head_snapshot :
    ℕ
    → ℕ
    → Outcome EvmRpcError EndpointHead
    → Outcome EvmRpcError EndpointHead
    → Outcome EvmHeadSnapshotFailure EvmHead
unfolding merge_head_values
merge_head_snapshot chain signer (err _) (err _) = err EvmHeadSnapshotFailure.both_rpc_unavailable
merge_head_snapshot chain signer (err _) (ok _) = err EvmHeadSnapshotFailure.primary_rpc_unavailable
merge_head_snapshot chain signer (ok _) (err _) = err EvmHeadSnapshotFailure.backup_rpc_unavailable
merge_head_snapshot chain signer (ok primary) (ok backup) =
    merge_head_values chain signer primary backup

pub facts_eq→eq : (a b : ReceiptFacts) → facts_eq a b ≡ true → a ≡ b
unfolding facts_eq
facts_eq→eq a b h =
    let e0 : a.block_number ≡ b.block_number = ground arith in
    let e1 : a.block_hash ≡ b.block_hash = ground arith in
    let e2 : a.success ≡ b.success = ground arith in
    let e3 : a.tx_hash ≡ b.tx_hash = ground arith in
    let e4 : a.gas_used ≡ b.gas_used = ground arith in
    let e5 : a.fee_wei ≡ b.fee_wei = ground arith in
    let e6 : a.execution_fee_wei ≡ b.execution_fee_wei = ground arith in
    let e7 : a.l1_fee_wei ≡ b.l1_fee_wei = ground arith in
    λ i. record {
      block_number = e0 i;
      block_hash = e1 i;
      success = e2 i;
      tx_hash = e3 i;
      gas_used = e4 i;
      fee_wei = e5 i;
      execution_fee_wei = e6 i;
      l1_fee_wei = e7 i;
    }

pub facts_eq_refl : (a : ReceiptFacts) → facts_eq a a ≡ true
unfolding facts_eq
facts_eq_refl a = ground arith

-- A merged receipt is mined only if both readers report it mined with the same facts, and unknown
-- only if both readers know no receipt.
pub merge_receipts_agree :
    (p b r : ReceiptObservation)
    → merge_receipts p b ≡ ok r
    → ((f : ReceiptFacts)
        → r ≡ ReceiptObservation.mined f
        → (p ≡ ReceiptObservation.mined f) × (b ≡ ReceiptObservation.mined f))
      × (r ≡ ReceiptObservation.unknown
          → (p ≡ ReceiptObservation.unknown) × (b ≡ ReceiptObservation.unknown))
unfolding merge_receipts
merge_receipts_agree ReceiptObservation.unknown ReceiptObservation.unknown r h = ground arith
merge_receipts_agree ReceiptObservation.unknown ReceiptObservation.pending r h = ground arith
merge_receipts_agree ReceiptObservation.unknown (ReceiptObservation.mined y) r h = ground arith
merge_receipts_agree ReceiptObservation.pending b r h = ground arith
merge_receipts_agree (ReceiptObservation.mined x) ReceiptObservation.unknown r h = ground arith
merge_receipts_agree (ReceiptObservation.mined x) ReceiptObservation.pending r h = ground arith
merge_receipts_agree (ReceiptObservation.mined x) (ReceiptObservation.mined y) r h = ground arith
