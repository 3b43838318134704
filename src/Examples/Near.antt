-- ===== src/Examples/Near.antt =====
-- A settled NEAR payment: its graph of receipts, two readers of it, and a rebroadcast.
use x402_facilitator.Service.Recovery.{ReconcileVerdict}
use x402_facilitator.Near.Graph.{
  by_id, index_from, get, walk_fuel, total_children, walk, visited_receipt, check_acyclic,
  count_edges, count_children, is_root, sort, release,
}
use x402_facilitator.Chain.Reconcile.{
  IsNearFinal, IsSentTerminal, reconcile_status-IsVerdictOf, rebroadcast-IsSentTerminal,
}
use x402_facilitator.Service.World.{TerminalOutcome, BroadcastOutcome}
use x402_facilitator.Chain.{
  Codec, NearProvider, reconcile_status, rebroadcast, ChainProvider, near_lookups_status,
  interpret_near_final, RecoveryPolicy, execution_cost_near,
}
use x402_facilitator.Near.Receipts.Settled.{
  IsSettled, interpret_final_outcome_returns, interpret_final_outcome-IsSettled,
}
use x402_facilitator.Near.Receipts.{
  interpret_final_outcome, transfer_receipts, validate_final_outcome_identity, delegate_receipt,
  token_receipt, graph_checked,
}
use x402_facilitator.Near.Types.{
  ExecutionStatusView, FinalExecutionOutcome, SuccessfulTransferReceipt, FinalExecutionStatus,
  TransactionLookup, ExecutionOutcome, NearRpcError, ReceiptValidationError,
}
use x402_facilitator.Prelude.{
  ℕ, ◌+◌, ◌-◌, ◌≡◌, ◌≢◌, refl, true, none, some, List, [], ◌∷◌, ◌==◌, ok, err,
}

abbrev outcome_of : ℕ → List ℕ → ℕ → ExecutionStatusView → ExecutionOutcome
outcome_of id children executor status = record {
  id = id;
  receipt_ids = children;
  executor_id = executor;
  status = status;
  gas_burnt = 5;
  tokens_burnt = 7;
}

-- The relayer is 3, the payer 1 and the asset 2.
abbrev settled_view : FinalExecutionOutcome
settled_view = record {
  status = FinalExecutionStatus.success_value [];
  transaction_hash = 50;
  signer_id = 3;
  receiver_id = 1;
  transaction_outcome = outcome_of 50 (10 ∷ []) 3 (ExecutionStatusView.success_receipt_id 10);
  receipts_outcome =
      outcome_of 10 (11 ∷ 12 ∷ []) 1 (ExecutionStatusView.success_value [])
      ∷ outcome_of 11 (13 ∷ []) 2 (ExecutionStatusView.success_value (8 ∷ []))
      ∷ outcome_of 12 [] 1 (ExecutionStatusView.success_value [])
      ∷ outcome_of 13 [] 3 (ExecutionStatusView.success_value [])
      ∷ [];
}

abbrev settled_receipt : SuccessfulTransferReceipt
settled_receipt = record { receipt_id = 11; value = 8 ∷ [] }

interprets : interpret_final_outcome settled_view 1 2 ≡ some (ok settled_receipt)
unfolding interpret_final_outcome transfer_receipts by_id index_from get delegate_receipt
    token_receipt graph_checked walk_fuel total_children walk visited_receipt check_acyclic
    count_edges count_children is_root sort release
interprets = refl

-- A cycle from the last receipt back to the token receipt.
cyclic :
    interpret_final_outcome
      (record settled_view {
        receipts_outcome =
            outcome_of 10 (11 ∷ 12 ∷ []) 1 (ExecutionStatusView.success_value [])
            ∷ outcome_of 11 (12 ∷ []) 2 (ExecutionStatusView.success_value (8 ∷ []))
            ∷ outcome_of 12 (11 ∷ []) 1 (ExecutionStatusView.success_value [])
            ∷ [];
      })
      1
      2
    ≡ some (err ReceiptValidationError.cyclic_receipt_graph)
unfolding interpret_final_outcome transfer_receipts by_id index_from get delegate_receipt
    token_receipt graph_checked walk_fuel total_children walk visited_receipt check_acyclic
    count_edges count_children is_root sort release
cyclic = refl

interpret_final_outcome-IsSettled_example : IsSettled settled_view 1 2 settled_receipt
interpret_final_outcome-IsSettled_example =
    interpret_final_outcome-IsSettled settled_view 1 2 settled_receipt interprets

interpret_final_outcome_returns_example : interpret_final_outcome settled_view 1 2 ≢ none
interpret_final_outcome_returns_example = interpret_final_outcome_returns settled_view 1 2

-- Texts are parsed by taking 1000 off.
abbrev codec : Codec
codec = record {
  parse_hash = λ t. some (t - 1000);
  parse_account = λ t. some (t - 1000);
  parse_b256 = λ t. some (t - 1000);
  hash_text = λ h. h + 1000;
  b256_text = λ h. h + 1000;
  same_outcome = λ a b. a.transaction_hash == b.transaction_hash;
}

abbrev near_provider : NearProvider
near_provider = record {
  relayer = 3;
  broadcast_exact = λ bytes. ok (TransactionLookup.final settled_view);
  query_transaction = λ h s. err NearRpcError.transaction_unknown;
  query_transaction_backup = λ h s. ok (TransactionLookup.final settled_view);
}

abbrev near_outcome_seen : TerminalOutcome
near_outcome_seen = record {
  success = true;
  tx_hash = 1050;
  gas_units = 25;
  fee_atomic = 35;
  mined_block_number = none;
  mined_block_hash = none;
  confirmations = none;
}

reconciled_by_backup :
    reconcile_status codec
      (ChainProvider.near near_provider)
      1050
      1003
      1001
      1002
      RecoveryPolicy.near_finality
    ≡ (ReconcileVerdict.terminal near_outcome_seen, true)
unfolding reconcile_status near_lookups_status interpret_near_final execution_cost_near
    validate_final_outcome_identity interpret_final_outcome transfer_receipts by_id index_from get
    delegate_receipt token_receipt graph_checked walk_fuel total_children walk visited_receipt
    check_acyclic count_edges count_children is_root sort release
reconciled_by_backup = refl

reconcile_status-IsVerdictOf_example :
    IsNearFinal codec near_provider 1050 1003 1001 1002 near_outcome_seen true
reconcile_status-IsVerdictOf_example =
    reconcile_status-IsVerdictOf codec (ChainProvider.near near_provider) 1050 1003 1001 1002
      RecoveryPolicy.near_finality near_outcome_seen true reconciled_by_backup

rebroadcast_settles :
    rebroadcast codec (ChainProvider.near near_provider) 77 1050 1001 1002
    ≡ BroadcastOutcome.terminal near_outcome_seen
unfolding rebroadcast interpret_near_final execution_cost_near validate_final_outcome_identity
    interpret_final_outcome transfer_receipts by_id index_from get delegate_receipt token_receipt
    graph_checked walk_fuel total_children walk visited_receipt check_acyclic count_edges
    count_children is_root sort release
rebroadcast_settles = refl

rebroadcast-IsSentTerminal_example :
    IsSentTerminal codec (ChainProvider.near near_provider) 77 1050 1001 1002 near_outcome_seen
rebroadcast-IsSentTerminal_example =
    rebroadcast-IsSentTerminal codec (ChainProvider.near near_provider) 77 1050 1001 1002
      near_outcome_seen rebroadcast_settles
