-- ===== src/Evm/Types.antt =====
-- The observations of one reader, and the statuses that the engine acts on. A B256, an address and
-- an account are numbers.
use x402_facilitator.Prelude.{ℕ, Bool, true, false, Option, ◌&&◌, ◌==◌, option_eq}

pub data EvmRpcError : Type 0 where
  rpc invalid_transaction_hash invalid_confirmations head_behind_receipt fee_overflow : EvmRpcError
  reader_disagreement invalid_transaction invalid_receipt : ℕ → EvmRpcError

-- The facts that `ReaderDisagreement` names.
abbrev pub receipt_facts : ℕ
receipt_facts = 0

abbrev pub transaction_facts : ℕ
transaction_facts = 1

abbrev pub chain_id_fact : ℕ
chain_id_fact = 2

pub record ReceiptFacts : Type 0 where
  pub block_number : ℕ
  pub block_hash : Option ℕ
  pub success : Bool
  pub tx_hash : ℕ
  pub gas_used : ℕ
  pub fee_wei : ℕ
  pub execution_fee_wei : ℕ
  pub l1_fee_wei : ℕ

abbrev pub bool_eq : Bool → Bool → Bool
bool_eq true b = b
bool_eq false true = false
bool_eq false false = true

-- The derived `PartialEq`.
unfoldable pub facts_eq : ReceiptFacts → ReceiptFacts → Bool
facts_eq a b =
    a.block_number == b.block_number
    && (option_eq a.block_hash b.block_hash
        && (bool_eq a.success b.success
            && (a.tx_hash == b.tx_hash
                && (a.gas_used == b.gas_used
                    && (a.fee_wei == b.fee_wei
                        && (a.execution_fee_wei == b.execution_fee_wei
                            && a.l1_fee_wei == b.l1_fee_wei))))))

pub data ReceiptObservation : Type 0 where
  unknown pending : ReceiptObservation
  mined : ReceiptFacts → ReceiptObservation

pub data TransactionObservation : Type 0 where
  missing : TransactionObservation
  pending : ℕ → TransactionObservation
  mined : ℕ → ℕ → ℕ → TransactionObservation

pub record EndpointHead : Type 0 where
  pub chain_id : ℕ
  pub block_number : ℕ
  pub pending_account_nonce : ℕ
  pub gas_balance_wei : ℕ

pub record EvmHead : Type 0 where
  pub block_number : ℕ
  pub account_nonce : ℕ
  pub gas_balance_wei : ℕ
  pub signer_address : ℕ

pub data EvmHeadSnapshotFailure : Type 0 where
  primary_rpc_unavailable backup_rpc_unavailable both_rpc_unavailable : EvmHeadSnapshotFailure
  chain_id_mismatch pending_nonce_disagreement : EvmHeadSnapshotFailure

pub record EvmTerminalOutcome : Type 0 where
  pub success : Bool
  pub tx_hash : ℕ
  pub block_number : ℕ
  pub block_hash : Option ℕ
  pub confirmations : ℕ
  pub gas_used : ℕ
  pub fee_wei : ℕ
  pub execution_fee_wei : ℕ
  pub l1_fee_wei : ℕ

pub data EvmReconcileStatus : Type 0 where
  unknown pending : EvmReconcileStatus
  mined : ℕ → ℕ → EvmReconcileStatus
  terminal : EvmTerminalOutcome → EvmReconcileStatus
