-- ===== src/Journal/Types.antt =====
-- store.rs: the data of the journal. A settlement row holds the columns of the table `settlements`.
-- Identifiers, hashes, texts and JSON documents are numbers: the journal only compares them.
-- The columns that one statement writes together stand in one record.
use x402_facilitator.Prelude.{ℕ, Bool, true, false, Option}

-- `Uuid`.
abbrev pub Uuid : Type 0
Uuid = ℕ

-- The 32 bytes of a digest, as one number.
abbrev pub Hash : Type 0
Hash = ℕ

-- A text that is only compared, as an interned number.
abbrev pub Text : Type 0
Text = ℕ

-- Bytes that are only stored, compared and sent.
abbrev pub Bytes : Type 0
Bytes = ℕ

-- A calendar day, by its number.
abbrev pub Date : Type 0
Date = ℕ

pub data ChainKind : Type 0 where
  near eip155 : ChainKind

pub data SettlementState : Type 0 where
  reserved awaiting_retry prepared submitted succeeded failed : SettlementState

unfoldable pub is_terminal : SettlementState → Bool
is_terminal SettlementState.succeeded = true
is_terminal SettlementState.failed = true
is_terminal _ = false

abbrev pub state_eq : SettlementState → SettlementState → Bool
state_eq SettlementState.reserved SettlementState.reserved = true
state_eq SettlementState.awaiting_retry SettlementState.awaiting_retry = true
state_eq SettlementState.prepared SettlementState.prepared = true
state_eq SettlementState.submitted SettlementState.submitted = true
state_eq SettlementState.succeeded SettlementState.succeeded = true
state_eq SettlementState.failed SettlementState.failed = true
state_eq _ _ = false

abbrev pub kind_eq : ChainKind → ChainKind → Bool
kind_eq ChainKind.near ChainKind.near = true
kind_eq ChainKind.eip155 ChainKind.eip155 = true
kind_eq _ _ = false

-- `state IN ('reserved', 'prepared', 'submitted')`.
abbrev pub is_active : SettlementState → Bool
is_active SettlementState.reserved = true
is_active SettlementState.prepared = true
is_active SettlementState.submitted = true
is_active _ = false

pub record EvmAuthorizationMetadata : Type 0 where
  pub version : ℕ
  pub valid_after : Text
  pub valid_before : Text

-- The columns that the INSERT writes and that no UPDATE names.
pub record SettlementIdentity : Type 0 where
  pub id : Uuid
  pub api_client_id : Uuid
  pub payment_identifier : Option Text
  pub payment_hash : Hash
  pub request_fingerprint : Hash
  pub anchor_scope : Text
  pub anchor_value : Hash
  pub x402_version : ℕ
  pub scheme : Text
  pub network : Text
  pub asset : Text
  pub pay_to : Text
  pub amount : ℕ
  pub payer : Text
  pub chain_kind : ChainKind
  pub delegate_public_key : Option Text
  pub delegate_nonce : Option ℕ
  pub delegate_max_block_height : Option ℕ
  pub authorization_metadata : Option EvmAuthorizationMetadata
  pub signer_address : Option Text

-- What `claim_settlement` is given: the columns above and the current policy.
pub record NewSettlement : Type 0 where
  pub columns : SettlementIdentity
  pub open columns use *
  pub policy_snapshot : ℕ
  pub reservation : ℕ
  pub global_daily_budget : ℕ
  pub client_daily_budget : ℕ

pub record RetryReservation : Type 0 where
  pub settlement_id : Uuid
  pub policy_snapshot : ℕ
  pub reservation : ℕ
  pub global_daily_budget : ℕ
  pub client_daily_budget : ℕ

-- The relayer and outer-transaction columns, which `mark_prepared` writes together.
pub record NearSubmission : Type 0 where
  pub relayer_account_id : Text
  pub relayer_public_key : Text
  pub relayer_nonce : ℕ
  pub transaction_bytes : Bytes
  pub transaction_hash : Text

-- The submission columns of an EVM row, which `mark_prepared_evm` writes together.
pub record EvmSubmission : Type 0 where
  pub signer_account_nonce : ℕ
  pub submitted_tx_rlp : Bytes
  pub submitted_tx_hash : Text
  pub required_confirmations : ℕ

-- The columns that `mark_terminal` writes, without the state.
pub record TerminalResult : Type 0 where
  pub http_status : ℕ
  pub response_bytes : Bytes
  pub error_code : Option Text
  pub error_detail : Option Text
  pub gas_burnt : ℕ
  pub tokens_burnt : ℕ
  pub mined_block_number : Option ℕ
  pub mined_block_hash : Option Text
  pub confirmations : Option ℕ

pub record TerminalJournalEntry : Type 0 where
  pub settlement_id : Uuid
  pub state : SettlementState
  pub http_status : ℕ
  pub response_bytes : Bytes
  pub error_code : Option Text
  pub error_detail : Option Text
  pub gas_burnt : Option ℕ
  pub tokens_burnt : Option ℕ
  pub actual : ℕ
  pub mined_block_number : Option ℕ
  pub mined_block_hash : Option Text
  pub confirmations : Option ℕ

-- One row of `settlements`, and what `settlement` reads back as a `SettlementRecord`.
pub record SettlementRecord : Type 0 where
  pub columns : SettlementIdentity
  pub open columns use *
  pub state : SettlementState
  pub policy_snapshot : ℕ
  pub reservation_date : Date
  pub reserved : ℕ
  pub near_submission : Option NearSubmission
  pub evm_submission : Option EvmSubmission
  pub attempt_count : ℕ
  pub retry_code : Option Text
  pub terminal : Option TerminalResult
  pub reconciliation_attempts : ℕ

-- The code of an event: one of the journal's own, or one that a caller gives.
pub data EventCode : Type 0 where
  claimed retry_resumed outer_transaction_persisted : EventCode
  evm_transaction_persisted broadcast_started : EventCode
  given : Text → EventCode

-- One row of `settlement_events`.
pub record SettlementEvent : Type 0 where
  pub settlement_id : Uuid
  pub from_state : Option SettlementState
  pub to_state : SettlementState
  pub code : Option EventCode

pub data ClaimOutcome : Type 0 where
  new : SettlementRecord → ClaimOutcome
  existing : SettlementRecord → ClaimOutcome
  identifier_conflict duplicate_settlement settlement_busy budget_exceeded : ClaimOutcome

pub data RetryOutcome : Type 0 where
  resumed : SettlementRecord → RetryOutcome
  settlement_busy budget_exceeded : RetryOutcome

-- `to` is none for the pseudo-state "confirmation_policy_raised", `from` for "unknown".
pub data StoreError : Type 0 where
  database corrupt invalid_input : StoreError
  transition : Option SettlementState → Option SettlementState → StoreError

pub data Result {ℓ} (A : Type ℓ) : Type ℓ where
  ok : A → Result A
  err : StoreError → Result A
