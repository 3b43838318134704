-- ===== src/Examples/Recoveries.antt =====
-- The recovery of the Base payment, and a repeated claim.
use x402_facilitator.Journal.Ledger.{reserve_global_budget, reserve_client_budget, reserve_row}
use x402_facilitator.Service.Readiness.{set_leadership, set_gate, call_gates}
use x402_facilitator.Journal.Run.Repeats.{claim_repeated}
use x402_facilitator.Journal.Transitions.{
  raise_required_confirmations, mark_prepared_evm, mark_submitted,
}
use x402_facilitator.Service.Recovery.Broadcasts.{
  IsRecoveryOf, reconcile_prepared_evm-RecoversAtMostOne,
}
use x402_facilitator.Service.Relayers.{RelayerStatus, relayer_is_active}
use x402_facilitator.Examples.Data.{no_rows, texts, evm_claim, evm_in_flight, submitted_evm}
use x402_facilitator.Journal.Tables.{
  find_row, replace_row, other_rows, insert_row, update_row, violation, first_clash,
  satisfies_checks, clashes,
}
use x402_facilitator.Journal.Run.Safety.{after}
use x402_facilitator.Journal.Types.{ChainKind, Result, ClaimOutcome}
use x402_facilitator.Journal.Claim.{
  Snapshots, claim_settlement, early_answer, find_existing_settlement, find_by_identifier,
  find_by_hash, anchor_is_claimed, active_evm_signer_exists, claim_transaction,
}
use x402_facilitator.Service.Recovery.Safety.{RecoversAtMostOne}
use x402_facilitator.Journal.Run.{run, run-IsSound, empty, empty-IsSound}
use x402_facilitator.Service.Recovery.{
  Recovery, reconcile_prepared_evm, ReconcileVerdict, resubmit, rebroadcast,
  can_reconciliation_broadcast,
}
use x402_facilitator.Service.World.{
  Env, World, Broadcast, Verification, BroadcastOutcome, fresh_signer_head, at_step, store_call,
}
use x402_facilitator.Service.Funding.{ServiceConfig, require_evm_recovery_balance, signer_is_funded}
use x402_facilitator.Prelude.{◌≡◌, refl, true, false, some, none, [], ◌∷◌, List, ℕ, ◌+◌}

abbrev base_config : ServiceConfig
base_config = record {
  chain_kind = ChainKind.eip155;
  balance_hard_stop = some 1000;
  reservation = some 30;
  eip155 = none;
}

-- The chain has lost the transaction, and the nonce is still free.
abbrev base_env : Env
base_env = record {
  config = base_config;
  network = 20;
  account = 24;
  public_key = 24;
  others = λ k. [];
  gate_calls = λ k. [];
  fails = λ k. false;
  verify = Verification.rpc_ambiguous;
  signer_head =
      λ k. some (record { signer_nonce = 9; signer_public_key = 24; signer_balance_atomic = 2000 });
  prepare = none;
  broadcast = BroadcastOutcome.pending;
  response = λ s r p t. some 77;
  transaction_failed = 1;
  transaction_rejected = 2;
  no_transaction = 0;
  quarantine_reason = 3;
  retry_code = λ k. k + 4;
  settlement_identity_mismatch = 4;
}

abbrev lost : Recovery
lost = record {
  configured_confirmations = some 12;
  admission_confirmations = some 10;
  valid_submission = true;
  verdict = λ n. ReconcileVerdict.unknown;
}

abbrev base_world : World
base_world = record {
  db = after texts submitted_evm;
  relayers = λ n a k. some RelayerStatus.active;
  readiness = record { database = 2; leadership = 2; reconciliation = 1; rpc = 2; relayer = 2 };
  broadcasts = [];
}

base_found : find_row 2 (after texts submitted_evm).rows ≡ some evm_in_flight
unfolding run find_row replace_row other_rows claim_settlement early_answer find_existing_settlement
    find_by_identifier find_by_hash anchor_is_claimed active_evm_signer_exists claim_transaction
    insert_row update_row violation first_clash satisfies_checks clashes reserve_global_budget
    reserve_client_budget reserve_row mark_prepared_evm mark_submitted
base_found = refl

reconcile_prepared_evm-RecoversAtMostOne_example :
    RecoversAtMostOne
      (IsRecoveryOf texts base_env evm_in_flight lost base_world)
      2
      []
      (reconcile_prepared_evm texts base_env evm_in_flight lost base_world).1
reconcile_prepared_evm-RecoversAtMostOne_example =
    reconcile_prepared_evm-RecoversAtMostOne texts base_env evm_in_flight lost base_world
      (run-IsSound texts submitted_evm empty (empty-IsSound texts)) base_found refl

rebroadcast_bytes : List Broadcast → List ℕ
rebroadcast_bytes [] = []
rebroadcast_bytes (b ∷ bs) = b.bytes ∷ rebroadcast_bytes bs

-- The stored bytes are sent again.
base_payment_resent :
    rebroadcast_bytes
      (reconcile_prepared_evm texts base_env evm_in_flight lost base_world).1.broadcasts
    ≡ 9001 ∷ []
unfolding rebroadcast_bytes reconcile_prepared_evm resubmit rebroadcast can_reconciliation_broadcast
    require_evm_recovery_balance raise_required_confirmations fresh_signer_head at_step store_call
    set_leadership set_gate call_gates relayer_is_active signer_is_funded run find_row replace_row
    other_rows claim_settlement early_answer find_existing_settlement find_by_identifier
    find_by_hash anchor_is_claimed active_evm_signer_exists claim_transaction insert_row update_row
    violation first_clash satisfies_checks clashes reserve_global_budget reserve_client_budget
    reserve_row mark_prepared_evm mark_submitted
base_payment_resent = refl

abbrev current_rows : Snapshots
current_rows = record no_rows { first_lookup = (after texts submitted_evm).rows }

claim_repeated_example :
    claim_settlement texts evm_claim 1 current_rows (after texts submitted_evm)
    ≡ (Result.ok (ClaimOutcome.existing evm_in_flight), after texts submitted_evm)
claim_repeated_example =
    claim_repeated texts submitted_evm evm_claim 1 current_rows evm_in_flight base_found refl refl
      refl refl refl refl
