-- ===== src/Examples/Data.antt =====
-- Two payments, one on NEAR and one on Base, and the operations that settle them.
use x402_facilitator.Prelude.{ℕ, none, some, List, [], ◌∷◌}
use x402_facilitator.Journal.Types.{
  ChainKind, SettlementState, SettlementIdentity, NewSettlement, NearSubmission, EvmSubmission,
  TerminalJournalEntry, SettlementRecord,
}
use x402_facilitator.Journal.Tables.{Collation}
use x402_facilitator.Journal.Claim.{Snapshots, new_row}
use x402_facilitator.Journal.Transitions.{to_prepared, to_prepared_evm, to_submitted, to_terminal}
use x402_facilitator.Journal.Run.{Op}

abbrev pub texts : Collation
texts = record { lower = λ t. t; empty_text = 0; near_scope = 100; evm_scope = λ n a p. 7 }

abbrev pub near_identity : SettlementIdentity
near_identity = record {
  id = 1;
  api_client_id = 40;
  payment_identifier = some 61;
  payment_hash = 501;
  request_fingerprint = 601;
  anchor_scope = 100;
  anchor_value = 501;
  x402_version = 2;
  scheme = 3;
  network = 10;
  asset = 11;
  pay_to = 12;
  amount = 1000;
  payer = 13;
  chain_kind = ChainKind.near;
  delegate_public_key = some 14;
  delegate_nonce = some 15;
  delegate_max_block_height = some 900;
  authorization_metadata = none;
  signer_address = none;
}

abbrev pub evm_identity : SettlementIdentity
evm_identity = record {
  id = 2;
  api_client_id = 40;
  payment_identifier = none;
  payment_hash = 502;
  request_fingerprint = 602;
  anchor_scope = 7;
  anchor_value = 702;
  x402_version = 2;
  scheme = 3;
  network = 20;
  asset = 21;
  pay_to = 22;
  amount = 1000;
  payer = 23;
  chain_kind = ChainKind.eip155;
  delegate_public_key = none;
  delegate_nonce = none;
  delegate_max_block_height = none;
  authorization_metadata = some (record { version = 2; valid_after = 1; valid_before = 2 });
  signer_address = some 24;
}

abbrev pub near_claim : NewSettlement
near_claim = record {
  columns = near_identity;
  policy_snapshot = 0;
  reservation = 30;
  global_daily_budget = 100;
  client_daily_budget = 60;
}

abbrev pub evm_claim : NewSettlement
evm_claim = record {
  columns = evm_identity;
  policy_snapshot = 0;
  reservation = 30;
  global_daily_budget = 100;
  client_daily_budget = 60;
}

abbrev pub no_rows : Snapshots
no_rows = record {
  first_lookup = [];
  anchor_check = [];
  anchor_lookup = [];
  signer_check = [];
  signer_lookup = [];
  conflict_lookup = [];
  conflict_anchor = [];
  conflict_signer = [];
}

abbrev pub near_transaction : NearSubmission
near_transaction = record {
  relayer_account_id = 70;
  relayer_public_key = 71;
  relayer_nonce = 5;
  transaction_bytes = 8001;
  transaction_hash = 8002;
}

abbrev pub evm_transaction : EvmSubmission
evm_transaction = record {
  signer_account_nonce = 9;
  submitted_tx_rlp = 9001;
  submitted_tx_hash = 9002;
  required_confirmations = 10;
}

abbrev pub settled : ℕ → TerminalJournalEntry
settled id = record {
  settlement_id = id;
  state = SettlementState.succeeded;
  http_status = 200;
  response_bytes = 77;
  error_code = none;
  error_detail = none;
  gas_burnt = some 4;
  tokens_burnt = some 5;
  actual = 5;
  mined_block_number = some 300;
  mined_block_hash = none;
  confirmations = some 12;
}

abbrev pub claims : List Op
claims = Op.claim near_claim 1 no_rows ∷ Op.claim evm_claim 1 no_rows ∷ []

abbrev pub near_reserved : SettlementRecord
near_reserved = new_row near_claim 1

abbrev pub evm_reserved : SettlementRecord
evm_reserved = new_row evm_claim 1

-- The Base payment, settled.
abbrev pub evm_settlement : List Op
evm_settlement =
    Op.claim evm_claim 1 no_rows
    ∷ Op.prepare_evm 2 evm_transaction
    ∷ Op.submit 2
    ∷ Op.finish (settled 2)
    ∷ []

abbrev pub evm_settled : SettlementRecord
evm_settled = to_terminal (settled 2) (to_submitted (to_prepared_evm evm_transaction evm_reserved))

-- The NEAR payment, prepared.
abbrev pub near_preparation : List Op
near_preparation = Op.claim near_claim 1 no_rows ∷ Op.prepare 1 near_transaction ∷ []

abbrev pub near_prepared : SettlementRecord
near_prepared = to_prepared near_transaction near_reserved

-- The Base payment, submitted.
abbrev pub submitted_evm : List Op
submitted_evm = Op.claim evm_claim 1 no_rows ∷ Op.prepare_evm 2 evm_transaction ∷ Op.submit 2 ∷ []

abbrev pub evm_in_flight : SettlementRecord
evm_in_flight = to_submitted (to_prepared_evm evm_transaction evm_reserved)
