-- ===== src/Examples/Workers.antt =====
-- A worker that settles the NEAR payment.
use x402_facilitator.Journal.Transitions.{mark_prepared, mark_submitted}
use x402_facilitator.Journal.Ledger.{reserve_global_budget, reserve_client_budget, reserve_row}
use x402_facilitator.Journal.Types.{ChainKind}
use x402_facilitator.Journal.Claim.{
  claim_settlement, early_answer, find_existing_settlement, find_by_identifier, find_by_hash,
  anchor_is_claimed, active_evm_signer_exists, claim_transaction,
}
use x402_facilitator.Journal.Tables.{
  find_row, replace_row, other_rows, insert_row, update_row, violation, first_clash,
  satisfies_checks, clashes,
}
use x402_facilitator.Service.Relayers.{relayer_is_active, RelayerStatus}
use x402_facilitator.Journal.Run.{run}
use x402_facilitator.Examples.Data.{texts, claims}
use x402_facilitator.Journal.Run.Safety.{after}
use x402_facilitator.Service.Worker.{run_new_settlement, near_submit, near_broadcast}
use x402_facilitator.Service.Readiness.{
  ReadinessState, can_settle, set_leadership, set_gate, call_gates,
}
use x402_facilitator.Service.World.{
  Env, VerifiedPayment, World, Broadcast, Verification, Prepared, BroadcastOutcome,
  fresh_signer_head, at_step, store_call,
}
use x402_facilitator.Service.Funding.{ServiceConfig, signer_is_funded}
use x402_facilitator.Prelude.{◌≡◌, refl, false, some, none, [], ◌∷◌, List, ℕ, ◌+◌}

abbrev near_config : ServiceConfig
near_config = record {
  chain_kind = ChainKind.near;
  balance_hard_stop = some 1000;
  reservation = some 30;
  eip155 = none;
}

abbrev near_payment : VerifiedPayment
near_payment = record {
  request_hash = 501;
  anchor_scope = 100;
  anchor_value = 501;
  payer = 13;
  network = 10;
  asset = 11;
  pay_to = 12;
  amount = 1000;
}

-- Nothing else happens, and the broadcast is indeterminate.
abbrev near_env : Env
near_env = record {
  config = near_config;
  network = 10;
  account = 70;
  public_key = 71;
  others = λ k. [];
  gate_calls = λ k. [];
  fails = λ k. false;
  verify = Verification.verified near_payment;
  signer_head =
      λ k. some (record { signer_nonce = 4; signer_public_key = 71; signer_balance_atomic = 2000 });
  prepare = some (Prepared.near 70 71 5 8001 8002);
  broadcast = BroadcastOutcome.pending;
  response = λ s r p t. some 77;
  transaction_failed = 1;
  transaction_rejected = 2;
  no_transaction = 0;
  quarantine_reason = 3;
  retry_code = λ k. k + 4;
  settlement_identity_mismatch = 4;
}

abbrev open_gates : ReadinessState
open_gates = record { database = 2; leadership = 2; reconciliation = 2; rpc = 2; relayer = 2 }

abbrev near_world : World
near_world = record {
  db = after texts claims;
  relayers = λ n a k. some RelayerStatus.active;
  readiness = open_gates;
  broadcasts = [];
}

-- The worker does reach its broadcast.
sent_bytes : List Broadcast → List ℕ
sent_bytes [] = []
sent_bytes (b ∷ bs) = b.bytes ∷ sent_bytes bs

near_payment_sent :
    sent_bytes (run_new_settlement texts near_env 1 near_world).broadcasts ≡ 8001 ∷ []
unfolding sent_bytes run_new_settlement near_submit near_broadcast fresh_signer_head at_step
    store_call can_settle set_leadership set_gate call_gates relayer_is_active signer_is_funded run
    find_row replace_row other_rows claim_settlement early_answer find_existing_settlement
    find_by_identifier find_by_hash anchor_is_claimed active_evm_signer_exists claim_transaction
    insert_row update_row violation first_clash satisfies_checks clashes reserve_global_budget
    reserve_client_budget reserve_row mark_prepared mark_submitted
near_payment_sent = refl
