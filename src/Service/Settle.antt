-- ===== src/Service/Settle.antt =====
-- service.rs: `settle_inner`, from the authenticated request to the answer, with the answers of the
-- journal replayed by `prior_settlement_response` and `wait_for_terminal`. What the surroundings
-- answer at each step (the authenticator, the parser, the payment hash, the allowlist, the NEAR
-- facilitator, the provider) and what other requests do in between are fields of `SettleEnv`. A wait
-- polls the journal as often as its deadline lets it.
pub mod Quiet
pub mod Spawns
pub mod Admission
pub mod Safety
pub mod Replay
pub use x402_facilitator.Service.Wire.{
  ErrorCode, FailureReason, Reply, WireVersion, WireCodec, finalize_wire_response,
}
use x402_facilitator.Journal.Transitions.{resume_awaiting_retry}
use x402_facilitator.Journal.Claim.{find_existing_settlement, claim_settlement, Snapshots}
use x402_facilitator.Service.World.{Verification, VerifiedPayment}
use x402_facilitator.Journal.Run.{run, Op}
use x402_facilitator.Service.Readiness.{ReadinessState, call_gates, can_settle, GateCall}
use x402_facilitator.Journal.Tables.{Collation, Db, find_row}
use x402_facilitator.Journal.Types.{
  Result, TerminalResult, Uuid, Text, ChainKind, SettlementRecord, Bytes, ClaimOutcome, is_terminal,
  Hash, state_eq, SettlementState, RetryOutcome, NewSettlement, RetryReservation, StoreError,
  SettlementIdentity, Date,
}
use x402_facilitator.Prelude.{
  ℕ, zero, suc, ◌+◌, ◌-◌, ◌*◌, ◌≤◌, ◌<◌, ◌≡◌, ◌≢◌, refl, ap, sym, ◌∙◌, Bool, true, false, not, ◌&&◌,
  ◌||◌, Option, none, some, List, [], ◌∷◌, ◌++◌, map, ltb, leb, ◌==◌, if◌then◌else◌, arith, inl,
  inr, ◌⊎◌, ◌↔◌, ok, err, and_then, Outcome, any, filter, length, is_some, Bool-cases, Option-cases,
  if_cases, All,
}

pub record RequestMeta : Type 0 where
  pub x402_version : ℕ
  pub scheme : Text
  pub network : Text
  pub asset : Text
  pub pay_to : Text
  pub amount : ℕ
  pub payment_identifier : Option Text
  -- `near_asset_transfer_method.is_some_and(|method| method != Delegate)`
  pub other_transfer_method : Bool
  -- `ParsedRequest::wire`
  pub wire : WireVersion

pub record SettleConfig : Type 0 where
  pub chain_kind : ChainKind
  pub exact_scheme : Text
  pub network : Text
  pub asset : Text
  pub minimum_amount : ℕ
  pub policy_snapshot : ℕ
  pub reservation : ℕ
  pub global_daily_budget : ℕ

pub record Client : Type 0 where
  pub id : Uuid
  pub daily_budget : ℕ

-- The answer of the registered facilitator, where there is one.
pub data Routed : Type 0 where
  unregistered valid unreachable ambiguous : Routed
  invalid : Text → Option Text → Routed

pub record SettleEnv : Type 0 where
  pub codec : WireCodec
  pub config : SettleConfig
  pub authenticated : Outcome ℕ Client
  pub rate_admits : Bool
  pub parsed : Outcome ℕ RequestMeta
  pub payment_hash : Outcome Text Hash
  pub fingerprint : Option Hash
  pub payee_allowed : Option Bool
  pub routed : Routed
  pub verify : Verification
  -- the columns that the verified authorization fills, with the fresh id
  pub authorization : SettlementIdentity
  pub today : Date
  pub snapshots : Snapshots
  pub others : ℕ → List Op
  pub gate_calls : ℕ → List GateCall
  pub fails : ℕ → Bool
  -- the polls within one deadline
  pub polls : ℕ

-- The journal, the gates, the claims that were made and the workers that were spawned.
pub record Desk : Type 0 where
  pub db : Db
  pub readiness : ReadinessState
  pub claims : List NewSettlement
  pub spawned : List Uuid

abbrev pub configured_asset_matches : Collation → ChainKind → Text → Text → Bool
configured_asset_matches c ChainKind.near configured requested = requested == configured
configured_asset_matches c ChainKind.eip155 configured requested =
    c.lower requested == c.lower configured

unfoldable pub static_failure_reason : Collation → SettleConfig → RequestMeta → Option FailureReason
static_failure_reason c k m =
    if not (m.x402_version == 2)
    then some FailureReason.invalid_x402_version
    else (if not (m.scheme == k.exact_scheme)
        then some FailureReason.unsupported_scheme
        else (if not (m.network == k.network)
            then some FailureReason.invalid_network
            else (if m.other_transfer_method
                then some FailureReason.unsupported_asset_transfer_method
                else (if not (configured_asset_matches c k.chain_kind k.asset m.asset)
                    then some FailureReason.invalid_asset
                    else (if not (leb k.minimum_amount m.amount)
                        then some FailureReason.amount_below_minimum
                        else none)))))

abbrev pub terminal_reply : Option TerminalResult → Reply
terminal_reply none = Reply.error ErrorCode.journal_incomplete
terminal_reply (some t) =
    Reply.raw (if leb 100 t.http_status && leb t.http_status 999 then t.http_status else 503)
      t.response_bytes

unfoldable pub stored_terminal_response : SettlementRecord → Reply
stored_terminal_response r = terminal_reply r.terminal

unfoldable pub completed_settlement_response : SettlementRecord → Reply
completed_settlement_response r =
    if is_terminal r.state
    then stored_terminal_response r
    else Reply.error ErrorCode.settlement_retryable

-- How a wait ends.
pub data Waited : Type 0 where
  ended : SettlementRecord → Waited
  failed timed_out : Waited

module _ (c : Collation) (e : SettleEnv) where
  -- The desk when a step starts.
  unfoldable pub desk_at : ℕ → Desk → Desk
  desk_at k d = record d {
    db = run c (e.others k) d.db;
    readiness = call_gates (e.gate_calls k) d.readiness;
  }

  abbrev pub has_ended : SettlementRecord → Bool
  has_ended r = is_terminal r.state || state_eq r.state SettlementState.awaiting_retry

  -- One poll: the row that it reads, and the polls that follow.
  abbrev pub poll : Option SettlementRecord → Desk → Waited × Desk → Waited × Desk
  poll none d rest = (Waited.failed, d)
  poll (some r) d rest = if has_ended r then (Waited.ended r, d) else rest

  -- The polls of `wait_for_terminal` until the deadline.
  unfoldable pub wait_for_terminal : ℕ → ℕ → Uuid → Desk → Waited × Desk
  wait_for_terminal zero k id d = (Waited.timed_out, d)
  wait_for_terminal (suc n) k id d =
      let d' = desk_at k d in
      let rest = poll (find_row id d'.db.rows) d' (wait_for_terminal n (k + 1) id d') in
      if e.fails k then (Waited.failed, d') else rest

  abbrev pub wait_reply : Waited → Reply
  wait_reply (Waited.ended r) = completed_settlement_response r
  wait_reply Waited.failed = Reply.error ErrorCode.database_unavailable
  wait_reply Waited.timed_out = Reply.error ErrorCode.settlement_pending

  abbrev pub waited : ℕ → Uuid → Desk → Reply × Desk
  waited k id d = let (x, d') = wait_for_terminal e.polls k id d in (wait_reply x, d')

  -- `prior_settlement_response`: an answer, nothing, or a failed read. A failed wait is answered as a
  -- failed read is.
  abbrev pub prior_existing : ℕ → SettlementRecord → Desk → Option Reply × Desk
  prior_existing k r d =
      if state_eq r.state SettlementState.awaiting_retry
      then (none, d)
      else (if is_terminal r.state
          then (some (stored_terminal_response r), d)
          else (let (x, d') = waited (k + 1) r.id d in (some x, d')))

  abbrev pub prior_outcome : ℕ → Option ClaimOutcome → Desk → Option Reply × Desk
  prior_outcome k none d = (none, d)
  prior_outcome k (some (ClaimOutcome.existing r)) d = prior_existing k r d
  prior_outcome k (some ClaimOutcome.identifier_conflict) d =
      (some (Reply.error ErrorCode.payment_identifier_conflict), d)
  prior_outcome k (some ClaimOutcome.duplicate_settlement) d =
      (some (Reply.failure FailureReason.duplicate_settlement none), d)
  prior_outcome k (some _) d = (some (Reply.error ErrorCode.database_unavailable), d)

  unfoldable pub prior_settlement_response :
      ℕ → Client → RequestMeta → Hash → Hash → Desk → Option Reply × Desk
  prior_settlement_response k client m hash fingerprint d =
      let d' = desk_at k d in
      if e.fails k
      then (some (Reply.error ErrorCode.database_unavailable), d')
      else prior_outcome k
          (find_existing_settlement client.id m.payment_identifier hash fingerprint d'.db.rows) d'

  abbrev pub or_reply : Reply → Option Reply × Desk → Reply × Desk
  or_reply r (none, d) = (r, d)
  or_reply r (some p, d) = (p, d)

  module _ (client : Client) (m : RequestMeta) (hash fingerprint : Hash) where
    -- `prior_settlement_race_response`, and then the refusal.
    unfoldable pub refuse_unless_prior : ℕ → Reply → Desk → Reply × Desk
    refuse_unless_prior k r d = or_reply r (prior_settlement_response k client m hash fingerprint d)

    abbrev pub new_settlement : VerifiedPayment → NewSettlement
    new_settlement v = record {
      columns = record e.authorization {
        api_client_id = client.id;
        payment_identifier = m.payment_identifier;
        payment_hash = v.request_hash;
        request_fingerprint = fingerprint;
        anchor_scope = v.anchor_scope;
        anchor_value = v.anchor_value;
        x402_version = m.x402_version;
        scheme = m.scheme;
        network = m.network;
        asset = m.asset;
        pay_to = m.pay_to;
        amount = m.amount;
        payer = v.payer;
      };
      policy_snapshot = e.config.policy_snapshot;
      reservation = e.config.reservation;
      global_daily_budget = e.config.global_daily_budget;
      client_daily_budget = client.daily_budget;
    }

    abbrev pub retry_of : Uuid → RetryReservation
    retry_of id = record {
      settlement_id = id;
      policy_snapshot = e.config.policy_snapshot;
      reservation = e.config.reservation;
      global_daily_budget = e.config.global_daily_budget;
      client_daily_budget = client.daily_budget;
    }

    abbrev pub spawn : Uuid → Desk → Desk
    spawn id d = record d { spawned = id ∷ d.spawned }

    -- A concurrent retry may have resumed the row: join that attempt.
    abbrev pub join_resumed : Option SettlementRecord → Desk → Reply × Desk
    join_resumed none d = (Reply.error ErrorCode.database_unavailable, d)
    join_resumed (some r) d =
        if state_eq r.state SettlementState.awaiting_retry
        then (Reply.error ErrorCode.settlement_retryable, d)
        else waited 10 r.id d

    abbrev pub resume_race : Uuid → Desk → Reply × Desk
    resume_race id d =
        let d' = desk_at 9 d in
        if e.fails 9
        then (Reply.error ErrorCode.database_unavailable, d')
        else join_resumed (find_row id d'.db.rows) d'

    abbrev pub resume_answered : Uuid → Result RetryOutcome → Desk → Reply × Desk
    resume_answered id (Result.ok (RetryOutcome.resumed r)) d = waited 10 r.id (spawn r.id d)
    resume_answered id (Result.ok RetryOutcome.settlement_busy) d =
        (Reply.error ErrorCode.settlement_busy, d)
    resume_answered id (Result.ok RetryOutcome.budget_exceeded) d =
        (Reply.error ErrorCode.sponsorship_budget_exhausted, d)
    resume_answered id (Result.err (StoreError.transition a b)) d = resume_race id d
    resume_answered id (Result.err _) d = (Reply.error ErrorCode.database_unavailable, d)

    abbrev pub resume : Uuid → Desk → Reply × Desk
    resume id d =
        let d' = desk_at 8 d in
        if e.fails 8
        then (Reply.error ErrorCode.database_unavailable, d')
        else (let (x, db) = resume_awaiting_retry c (retry_of id) e.today d'.db in
            resume_answered id x (record d' { db = db }))

    abbrev pub claim_answered : VerifiedPayment → Result ClaimOutcome → Desk → Reply × Desk
    claim_answered v (Result.err x) d = (Reply.error ErrorCode.database_unavailable, d)
    claim_answered v (Result.ok (ClaimOutcome.new r)) d = waited 10 r.id (spawn r.id d)
    claim_answered v (Result.ok (ClaimOutcome.existing r)) d =
        if is_terminal r.state
        then (stored_terminal_response r, d)
        else (if state_eq r.state SettlementState.awaiting_retry
            then resume r.id d
            else waited 10 r.id d)
    claim_answered v (Result.ok ClaimOutcome.identifier_conflict) d =
        (Reply.error ErrorCode.payment_identifier_conflict, d)
    claim_answered v (Result.ok ClaimOutcome.duplicate_settlement) d =
        (Reply.failure FailureReason.duplicate_settlement (some v.payer), d)
    claim_answered v (Result.ok ClaimOutcome.settlement_busy) d =
        (Reply.error ErrorCode.settlement_busy, d)
    claim_answered v (Result.ok ClaimOutcome.budget_exceeded) d =
        (Reply.error ErrorCode.sponsorship_budget_exhausted, d)

    unfoldable pub claim : VerifiedPayment → Desk → Reply × Desk
    claim v d =
        let n = new_settlement v in
        let d' = desk_at 7 (record d { claims = n ∷ d.claims }) in
        if e.fails 7
        then (Reply.error ErrorCode.database_unavailable, d')
        else (let (x, db) = claim_settlement c n e.today e.snapshots d'.db in
            claim_answered v x (record d' { db = db }))

    unfoldable pub claim_verified : Verification → Desk → Reply × Desk
    claim_verified (Verification.verified v) d =
        if not (v.request_hash == hash)
        then (Reply.error ErrorCode.verification_inconsistent, d)
        else claim v d
    claim_verified Verification.rpc_ambiguous d =
        refuse_unless_prior 6 (Reply.error ErrorCode.rpc_unavailable) d
    claim_verified (Verification.rejected reason) d =
        refuse_unless_prior 6 (Reply.failure (FailureReason.reported reason) none) d

    -- `facilitator_verify_gate`, and the provider's verification.
    unfoldable pub verify_routed : Routed → Desk → Reply × Desk
    verify_routed Routed.unregistered d = claim_verified e.verify d
    verify_routed Routed.valid d = claim_verified e.verify d
    verify_routed Routed.unreachable d =
        refuse_unless_prior 5 (Reply.error ErrorCode.verification_unavailable) d
    verify_routed Routed.ambiguous d =
        refuse_unless_prior 5 (Reply.error ErrorCode.rpc_unavailable) d
    verify_routed (Routed.invalid reason payer) d =
        refuse_unless_prior 5 (Reply.failure (FailureReason.reported reason) payer) d

    unfoldable pub check_payee : Option Bool → Desk → Reply × Desk
    check_payee none d = (Reply.error ErrorCode.database_unavailable, d)
    check_payee (some false) d =
        refuse_unless_prior 4 (Reply.failure FailureReason.payee_not_allowed none) d
    check_payee (some true) d = verify_routed e.routed d

    unfoldable pub check_gates : Desk → Reply × Desk
    check_gates d =
        let d' = desk_at 1 d in
        if not (can_settle d'.readiness)
        then refuse_unless_prior 2 (Reply.error ErrorCode.settlement_unavailable) d'
        else check_payee e.payee_allowed (desk_at 3 d')

    abbrev pub unless_prior : Option Reply × Desk → Reply × Desk
    unless_prior (some r, d) = (r, d)
    unless_prior (none, d) = check_gates d

    unfoldable pub settle_identified : Desk → Reply × Desk
    settle_identified d = unless_prior (prior_settlement_response 0 client m hash fingerprint d)

  abbrev pub settle_fingerprint : Client → RequestMeta → Hash → Option Hash → Desk → Reply × Desk
  settle_fingerprint client m hash none d = (Reply.error ErrorCode.invalid_json, d)
  settle_fingerprint client m hash (some f) d = settle_identified client m hash f d

  abbrev pub settle_hash : Client → RequestMeta → Outcome Text Hash → Desk → Reply × Desk
  settle_hash client m (err reason) d = (Reply.failure (FailureReason.reported reason) none, d)
  settle_hash client m (ok hash) d = settle_fingerprint client m hash e.fingerprint d

  abbrev pub settle_static : Client → RequestMeta → Option FailureReason → Desk → Reply × Desk
  settle_static client m (some reason) d = (Reply.failure reason none, d)
  settle_static client m none d = settle_hash client m e.payment_hash d

  -- Every answer to a parsed request is put into the dialect of the request.
  abbrev pub finalized : RequestMeta → Reply × Desk → Reply × Desk
  finalized m x = (finalize_wire_response e.codec m.wire x.0, x.1)

  abbrev pub settle_parsed : Client → Outcome ℕ RequestMeta → Desk → Reply × Desk
  settle_parsed client (err x) d = (Reply.error (ErrorCode.refused_earlier x), d)
  settle_parsed client (ok m) d =
      finalized m (settle_static client m (static_failure_reason c e.config m) d)

  abbrev pub settle_client : Outcome ℕ Client → Desk → Reply × Desk
  settle_client (err x) d = (Reply.error (ErrorCode.refused_earlier x), d)
  settle_client (ok client) d =
      if not e.rate_admits
      then (Reply.error ErrorCode.rate_limit_exceeded, d)
      else settle_parsed client e.parsed d

  unfoldable pub settle_inner : Desk → Reply × Desk
  settle_inner d = settle_client e.authenticated d
