-- ===== src/Examples/Settle.antt =====
-- Runs of the settlement handler: a new NEAR payment, and a Base payment that has settled.
use x402_facilitator.Journal.Transitions.{mark_prepared}
use x402_facilitator.Journal.Transitions.{mark_prepared}
use x402_facilitator.Journal.Ledger.{reserve_global_budget, reserve_client_budget, reserve_row}
use x402_facilitator.Service.Readiness.{can_settle, call_gates}
use x402_facilitator.Journal.Claim.{
  claim_settlement, early_answer, find_existing_settlement, find_by_identifier, find_by_hash,
  anchor_is_claimed, active_evm_signer_exists, claim_transaction,
}
use x402_facilitator.Journal.Run.{run, empty}
use x402_facilitator.Examples.Data.{texts, near_identity, no_rows, near_claim}
use x402_facilitator.Journal.Types.{is_terminal, ChainKind}
use x402_facilitator.Service.Settle.Safety.{IsSettledSafely, settle_inner-IsSettledSafely}
use x402_facilitator.Journal.Tables.{
  Db, find_row, insert_row, violation, first_clash, satisfies_checks, clashes,
}
use x402_facilitator.Service.World.{VerifiedPayment, Verification}
use x402_facilitator.Service.Wire.{finalize_wire_response}
use x402_facilitator.Service.Settle.{
  WireVersion, WireCodec, RequestMeta, SettleConfig, SettleEnv, desk_at, settle_inner,
  static_failure_reason, Routed, Desk, settle_identified, prior_settlement_response, check_gates,
  check_payee, verify_routed, claim_verified, claim, wait_for_terminal, Reply, ErrorCode,
}
use x402_facilitator.Prelude.{◌≡◌, refl, true, false, none, some, [], ◌∷◌, ok}

abbrev settle_config : SettleConfig
settle_config = record {
  chain_kind = ChainKind.near;
  exact_scheme = 3;
  network = 10;
  asset = 11;
  minimum_amount = 500;
  policy_snapshot = 0;
  reservation = 30;
  global_daily_budget = 100;
}

abbrev near_request : RequestMeta
near_request = record {
  x402_version = 2;
  scheme = 3;
  network = 10;
  asset = 11;
  pay_to = 12;
  amount = 1000;
  payment_identifier = some 61;
  other_transfer_method = false;
  wire = WireVersion.v2;
}

-- The verified payment of the NEAR claim.
abbrev verified_payment : VerifiedPayment
verified_payment = record {
  request_hash = 501;
  anchor_scope = 100;
  anchor_value = 501;
  payer = 13;
  network = 10;
  asset = 11;
  pay_to = 12;
  amount = 1000;
}

-- A body is the text of its network.
abbrev plain_wire : WireCodec
plain_wire = record {
  protocol_json = λ reason payer. 0;
  rebuffers = λ b. true;
  from_slice = λ b. some (record { network = some b; rest = 0 });
  to_vec = λ v. v.network;
  base = 71;
  base_caip2 = 20;
  base_sepolia = 72;
  base_sepolia_caip2 = 70;
}

abbrev settle_env : SettleEnv
settle_env = record {
  codec = plain_wire;
  config = settle_config;
  authenticated = ok (record { id = 40; daily_budget = 60 });
  rate_admits = true;
  parsed = ok near_request;
  payment_hash = ok 501;
  fingerprint = some 601;
  payee_allowed = some true;
  routed = Routed.valid;
  verify = Verification.verified verified_payment;
  authorization = near_identity;
  today = 1;
  snapshots = no_rows;
  others = λ k. [];
  gate_calls = λ k. [];
  fails = λ k. false;
  polls = 2;
}

abbrev desk : Db → Desk
desk db = record {
  db = db;
  readiness = record { database = 2; leadership = 2; reconciliation = 2; rpc = 2; relayer = 2 };
  claims = [];
  spawned = [];
}

-- The payment is claimed, a worker is spawned, and the answer does not come in time.
near_payment_claimed :
    ((settle_inner texts settle_env (desk empty)).0 ≡ Reply.error ErrorCode.settlement_pending)
    × ((settle_inner texts settle_env (desk empty)).1.claims ≡ near_claim ∷ [])
    × ((settle_inner texts settle_env (desk empty)).1.spawned ≡ 1 ∷ [])
unfolding finalize_wire_response settle_inner static_failure_reason settle_identified
    prior_settlement_response desk_at check_gates check_payee verify_routed claim_verified claim
    wait_for_terminal can_settle call_gates run find_row claim_settlement early_answer
    find_existing_settlement find_by_identifier find_by_hash anchor_is_claimed
    active_evm_signer_exists claim_transaction insert_row violation first_clash satisfies_checks
    clashes reserve_global_budget reserve_client_budget reserve_row is_terminal
near_payment_claimed = (refl, refl, refl)

settle_inner-IsSettledSafely_example :
    IsSettledSafely texts settle_env (desk empty) (settle_inner texts settle_env (desk empty)).1
settle_inner-IsSettledSafely_example = settle_inner-IsSettledSafely texts settle_env (desk empty)

abbrev base_env : SettleEnv
base_env = record settle_env {
  config = record settle_config { chain_kind = ChainKind.eip155; network = 20; asset = 21 };
  parsed =
      ok (record near_request { network = 20; asset = 21; pay_to = 22; payment_identifier = none });
  payment_hash = ok 502;
  fingerprint = some 602;
  payee_allowed = some false;
  verify = Verification.rpc_ambiguous;
}
