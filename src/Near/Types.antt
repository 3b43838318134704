-- ===== src/Near/Types.antt =====
-- The views of a final execution outcome that receipt.rs reads, its `SuccessfulTransferReceipt` and
-- its `ReceiptValidationError`. Hashes, accounts and formatted errors are numbers.
use x402_facilitator.Prelude.{ℕ, List, Bool, true, false, Outcome}

pub data ExecutionStatusView : Type 0 where
  unknown : ExecutionStatusView
  failure : ℕ → ExecutionStatusView
  success_value : List ℕ → ExecutionStatusView
  success_receipt_id : ℕ → ExecutionStatusView

pub data FinalExecutionStatus : Type 0 where
  not_started started : FinalExecutionStatus
  failure : ℕ → FinalExecutionStatus
  success_value : List ℕ → FinalExecutionStatus

-- `ExecutionOutcomeWithIdView`, with the fields of its `outcome` beside its `id`.
pub record ExecutionOutcome : Type 0 where
  pub id : ℕ
  pub receipt_ids : List ℕ
  pub executor_id : ℕ
  pub status : ExecutionStatusView
  pub gas_burnt : ℕ
  pub tokens_burnt : ℕ

-- `FinalExecutionOutcomeView`, with the three fields of its `transaction` that are read.
pub record FinalExecutionOutcome : Type 0 where
  pub status : FinalExecutionStatus
  pub transaction_hash : ℕ
  pub signer_id : ℕ
  pub receiver_id : ℕ
  pub transaction_outcome : ExecutionOutcome
  pub receipts_outcome : List ExecutionOutcome

pub record SuccessfulTransferReceipt : Type 0 where
  pub receipt_id : ℕ
  pub value : List ℕ

pub data ReceiptValidationError : Type 0 where
  not_started pending invalid_delegate_receipt_count : ReceiptValidationError
  missing_delegate_receipt invalid_delegate_executor : ReceiptValidationError
  incomplete_receipt_graph duplicate_receipt_outcome : ReceiptValidationError
  cyclic_receipt_graph invalid_token_receipt_count : ReceiptValidationError
  token_receipt_not_successful transaction_hash_mismatch : ReceiptValidationError
  transaction_outcome_id_mismatch transaction_signer_mismatch : ReceiptValidationError
  invalid_transaction_executor transaction_receiver_mismatch : ReceiptValidationError
  final_failure transaction_failure delegate_failure : ℕ → ReceiptValidationError
  reachable_receipt_failure token_receipt_failure : ℕ → ReceiptValidationError

-- The two lookups that are told apart, and the errors that matter to the callers.
pub data NearRpcError : Type 0 where
  transaction_unknown transaction_rejected : NearRpcError
  other : ℕ → NearRpcError

pub data TransactionLookup : Type 0 where
  unknown : TransactionLookup
  pending : ℕ → TransactionLookup
  final : FinalExecutionOutcome → TransactionLookup

abbrev pub Validated {ℓ} : Type ℓ → Type ℓ
Validated A = Outcome ReceiptValidationError A

unfoldable pub is_definitive_failure : ReceiptValidationError → Bool
is_definitive_failure (ReceiptValidationError.final_failure e) = true
is_definitive_failure (ReceiptValidationError.transaction_failure e) = true
is_definitive_failure (ReceiptValidationError.delegate_failure e) = true
is_definitive_failure (ReceiptValidationError.reachable_receipt_failure e) = true
is_definitive_failure (ReceiptValidationError.token_receipt_failure e) = true
is_definitive_failure e = false
