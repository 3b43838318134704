-- ===== src/Service/Worker.antt =====
-- service.rs: `run_new_settlement` and `settle_prepared_evm`, step by step. Before each step other
-- requests and tasks may have changed the journal and the gates.
pub mod Safety
pub mod Journaled
pub mod Broadcasts
pub mod EvmBroadcasts
use x402_facilitator.Prelude.{
  ℕ, ◌^◌, ◌-◌, ◌≡◌, refl, Bool, true, false, not, Option, none, some, List, [], ◌∷◌, ◌++◌, arith,
  leb, ◌==◌, ◌&&◌, if◌then◌else◌,
}
use x402_facilitator.Journal.Types.{
  Uuid, Text, Bytes, SettlementState, SettlementRecord, NearSubmission, EvmSubmission, Result, ok,
  err, state_eq,
}
use x402_facilitator.Journal.Tables.{Collation, Db, find_row}
use x402_facilitator.Journal.Transitions.{
  mark_prepared, mark_prepared_evm, mark_submitted, is_reserved,
}
use x402_facilitator.Service.Readiness.{can_settle, set_relayer, set_reconciliation}
use x402_facilitator.Service.Relayers.{quarantine_relayer}
use x402_facilitator.Service.Funding.{evm_reservation_covers_liability}
use x402_facilitator.Service.World.{
  World, Env, Broadcast, BroadcastOutcome, VerifiedPayment, Verification, SignerHead, Prepared,
  at_step, store_call, fresh_signer_head,
}
use x402_facilitator.Service.Finalize.{
  pause, finalize_terminal, terminal_protocol_failure, retryable_service_failure,
  terminal_transaction_rejected,
}

-- The journaled settlement is the one that was verified.
abbrev pub is_same_payment : Collation → SettlementRecord → VerifiedPayment → Bool
is_same_payment c r p =
    is_reserved r
    && (r.payment_hash == p.request_hash
        && (r.anchor_scope == p.anchor_scope
            && (r.anchor_value == p.anchor_value
                && (r.payer == p.payer
                    && (r.network == p.network
                        && (c.lower r.asset == c.lower p.asset
                            && (c.lower r.pay_to == c.lower p.pay_to
                                && (leb p.amount r.amount && leb r.amount p.amount))))))))

module _ (c : Collation) (env : Env) (id : Uuid) where
  abbrev pub retry_later : ℕ → ℕ → World → World
  retry_later k code w = retryable_service_failure c env k id (env.retry_code code) w

  -- The external call, and what its answer does. Terminal EVM answers are left to the
  -- reconciliation.
  abbrev pub near_answered : Text → Text → BroadcastOutcome → World → World
  near_answered payer hash (BroadcastOutcome.terminal o) w = finalize_terminal c env 11 id payer o w
  near_answered payer hash BroadcastOutcome.rejected w =
      terminal_transaction_rejected c env 11 id payer hash w
  near_answered payer hash BroadcastOutcome.pending w = pause w

  abbrev pub evm_answered : Text → Text → BroadcastOutcome → World → World
  evm_answered payer hash (BroadcastOutcome.terminal o) w = pause w
  evm_answered payer hash BroadcastOutcome.rejected w =
      terminal_transaction_rejected c env 12 id payer hash w
  evm_answered payer hash BroadcastOutcome.pending w = pause w

  abbrev pub sent : Bytes → World → World
  sent bytes w = record w {
    broadcasts =
        w.broadcasts
        ++ record { settlement_id = id; bytes = bytes; journal = w.db; gates = w.readiness } ∷ [];
  }

  -- The quarantine may fail unnoticed; the gates close all the same.
  abbrev pub quarantined : ℕ → ℕ → World → World
  quarantined k nonce w = record w {
    relayers =
        if env.fails k
        then w.relayers
        else quarantine_relayer env.network env.account env.public_key env.quarantine_reason nonce
            w.relayers;
    readiness = set_reconciliation false (set_relayer false w.readiness);
  }

  -- The NEAR path, from its end.
  unfoldable pub near_broadcast : Text → Text → Bytes → World → World
  near_broadcast payer hash bytes v =
      let w = at_step c env 10 v in
      if can_settle w.readiness
      then near_answered payer hash env.broadcast (sent bytes w)
      else pause w

  abbrev pub near_submitted : Text → Text → Bytes → Result (Unit {0}) × World → World
  near_submitted payer hash bytes (ok _, w) = near_broadcast payer hash bytes w
  near_submitted payer hash bytes (err _, w) = pause w

  unfoldable pub near_submit : Text → Text → Bytes → World → World
  near_submit payer hash bytes v =
      let w = at_step c env 8 v in
      if can_settle w.readiness
      then near_submitted payer hash bytes
          (store_call env 9 (mark_submitted c id) (at_step c env 9 w))
      else pause w

  abbrev pub near_rechecked : Text → Text → Bytes → SignerHead → Option SignerHead × World → World
  near_rechecked payer hash bytes head (none, w) = pause w
  near_rechecked payer hash bytes head (some current, w) =
      if current.signer_nonce == head.signer_nonce
      then near_submit payer hash bytes w
      else quarantined 7 current.signer_nonce w

  abbrev pub near_journaled : Text → Text → Bytes → SignerHead → Result (Unit {0}) × World → World
  near_journaled payer hash bytes head (err _, w) = pause w
  near_journaled payer hash bytes head (ok _, w) =
      near_rechecked payer hash bytes head (fresh_signer_head env 6 (at_step c env 6 w))

  abbrev pub near_entry : Text → Text → ℕ → Bytes → Text → NearSubmission
  near_entry submitter key nonce bytes hash = record {
    relayer_account_id = submitter;
    relayer_public_key = key;
    relayer_nonce = nonce;
    transaction_bytes = bytes;
    transaction_hash = hash;
  }

  -- `settle_prepared_evm`, from its end.
  unfoldable pub evm_broadcast : Text → Text → Bytes → World → World
  evm_broadcast payer hash bytes v =
      let w = at_step c env 11 v in
      if can_settle w.readiness
      then evm_answered payer hash env.broadcast (sent bytes w)
      else pause w

  abbrev pub evm_rechecked : Text → Text → ℕ → Bytes → Option SignerHead × World → World
  evm_rechecked payer hash nonce bytes (none, w) = pause w
  evm_rechecked payer hash nonce bytes (some current, w) =
      if current.signer_nonce == nonce
      then evm_broadcast payer hash bytes w
      else quarantined 10 current.signer_nonce w

  unfoldable pub evm_recheck : Text → Text → ℕ → Bytes → World → World
  evm_recheck payer hash nonce bytes v =
      let w = at_step c env 8 v in
      if can_settle w.readiness
      then evm_rechecked payer hash nonce bytes (fresh_signer_head env 9 (at_step c env 9 w))
      else pause w

  abbrev pub evm_submitted : Text → Text → ℕ → Bytes → Result (Unit {0}) × World → World
  evm_submitted payer hash nonce bytes (ok _, w) = evm_recheck payer hash nonce bytes w
  evm_submitted payer hash nonce bytes (err _, w) = pause w

  unfoldable pub evm_submit : Text → Text → ℕ → Bytes → World → World
  evm_submit payer hash nonce bytes v =
      let w = at_step c env 6 v in
      if can_settle w.readiness
      then evm_submitted payer hash nonce bytes
          (store_call env 7 (mark_submitted c id) (at_step c env 7 w))
      else pause w

  abbrev pub evm_journaled : Text → Text → ℕ → Bytes → Result (Unit {0}) × World → World
  evm_journaled payer hash nonce bytes (ok _, w) = evm_submit payer hash nonce bytes w
  evm_journaled payer hash nonce bytes (err _, w) = pause w

  abbrev pub evm_entry : ℕ → Bytes → Text → ℕ → EvmSubmission
  evm_entry nonce bytes hash depth = record {
    signer_account_nonce = nonce;
    submitted_tx_rlp = bytes;
    submitted_tx_hash = hash;
    required_confirmations = depth;
  }

  abbrev pub settle_prepared_evm : Text → Text → ℕ → Bytes → Option ℕ → World → World
  settle_prepared_evm payer hash nonce bytes none w = pause w
  settle_prepared_evm payer hash nonce bytes (some depth) w =
      if leb depth (2 ^ 31 - 1)
      then evm_journaled payer hash nonce bytes (
          store_call env 5 (mark_prepared_evm c id (evm_entry nonce bytes hash depth))
            (at_step c env 5 w))
      else pause w

  abbrev pub after_prepare : VerifiedPayment → SignerHead → Option Prepared → World → World
  after_prepare p head none w = retry_later 4 4 w
  after_prepare p head (some (Prepared.near submitter key nonce bytes hash)) w =
      near_journaled p.payer hash bytes head (
        store_call env 5 (mark_prepared c id (near_entry submitter key nonce bytes hash))
          (at_step c env 5 w))
  after_prepare p head (some (Prepared.evm none depth nonce bytes hash)) w = retry_later 4 5 w
  after_prepare p head (some (Prepared.evm (some l1_fee) depth nonce bytes hash)) w =
      if evm_reservation_covers_liability env.config l1_fee
      then settle_prepared_evm p.payer hash nonce bytes depth w
      else retry_later 4 6 w

  abbrev pub headed : VerifiedPayment → Option SignerHead × World → World
  headed p (none, w) = retry_later 4 3 w
  headed p (some head, w) = after_prepare p head env.prepare w

  abbrev pub reloaded : VerifiedPayment → Option SettlementRecord → World → World
  reloaded p none w = retry_later 3 2 w
  reloaded p (some r) w =
      if is_same_payment c r p
      then headed p (fresh_signer_head env 3 (at_step c env 3 w))
      else terminal_protocol_failure c env 3 id env.settlement_identity_mismatch none
          env.no_transaction w

  abbrev pub after_verify : Verification → World → World
  after_verify Verification.rpc_ambiguous w = retry_later 1 1 w
  after_verify (Verification.rejected reason) w =
      terminal_protocol_failure c env 1 id reason none env.no_transaction w
  after_verify (Verification.verified p) v =
      let w = at_step c env 2 v in
      if env.fails 2 then retry_later 3 2 w else reloaded p (find_row id w.db.rows) w

  unfoldable pub run_new_settlement : World → World
  unfolding near_submit evm_submit
  run_new_settlement v =
      let w = at_step c env 0 v in
      if can_settle w.readiness then after_verify env.verify w else retry_later 1 0 w
