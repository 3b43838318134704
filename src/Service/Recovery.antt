-- ===== src/Service/Recovery.antt =====
-- service.rs: `reconcile_prepared_evm`, `finalize_reconciled_terminal` and
-- `can_reconciliation_broadcast`: the recovery of one Base settlement that is prepared or submitted.
-- The checks of the stored envelope and the parsing of the policy snapshot are parameters.
pub mod Safety
pub mod Broadcasts
use x402_facilitator.Prelude.{
  ◌+◌, ℕ, ◌≡◌, refl, Bool, true, false, not, Option, none, some, ltb, ◌==◌, ◌&&◌, if◌then◌else◌,
}
use x402_facilitator.Journal.Types.{
  Uuid, Text, Bytes, ChainKind, SettlementState, EvmAuthorizationMetadata, SettlementRecord,
  EvmSubmission, StoreError, Result, ok, err,
}
use x402_facilitator.Journal.Tables.{Collation, Db, is_evm}
use x402_facilitator.Journal.Transitions.{
  raise_required_confirmations, mark_submitted, mark_terminal,
}
use x402_facilitator.Service.Readiness.{
  ReadinessState, snapshot, atomic_gate_ready, set_relayer, set_reconciliation,
}
use x402_facilitator.Service.Relayers.{quarantine_relayer}
use x402_facilitator.Service.Funding.{require_evm_recovery_balance, unready}
use x402_facilitator.Service.World.{
  World, Env, TerminalOutcome, BroadcastOutcome, SignerHead, at_step, store_call, fresh_signer_head,
  close_relayer,
}
use x402_facilitator.Service.Finalize.{pause, outcome_entry, terminal_transaction_rejected}
use x402_facilitator.Service.Worker.{sent}

unfoldable pub can_reconciliation_broadcast : ReadinessState → Bool
unfolding atomic_gate_ready
can_reconciliation_broadcast r = let s = snapshot r in s.leadership && (s.rpc && s.relayer)

pub data ReconcileVerdict : Type 0 where
  terminal : TerminalOutcome → ReconcileVerdict
  pending indeterminate unknown conflict ambiguous : ReconcileVerdict

pub record Recovery : Type 0 where
  -- the configured depth, where there is one that fits an i32
  pub configured_confirmations : Option ℕ
  -- the depth at admission, where the policy snapshot parses
  pub admission_confirmations : Option ℕ
  -- whether the stored envelope passes `validate_stored_submission`
  pub valid_submission : Bool
  -- `reconcile_status`, by the required depth
  pub verdict : ℕ → ReconcileVerdict

abbrev pub Answer : Type 0
Answer = Result (Unit {0}) × World

abbrev pub refuse : World → Answer
refuse w = (err StoreError.corrupt, w)

module _ (c : Collation) (env : Env) (record_read : SettlementRecord) where
  -- The reservation is a number here: its parse as a u128, an error in the code, does not fail.
  abbrev pub fee_overrun : TerminalOutcome → Bool
  fee_overrun o = is_evm record_read.chain_kind && ltb record_read.reserved o.fee_atomic

  abbrev pub quarantine_now : ℕ → World → World
  quarantine_now nonce w = record w {
    relayers =
        quarantine_relayer env.network env.account env.public_key env.quarantine_reason nonce
          w.relayers;
  }

  abbrev pub own_nonce : Option EvmSubmission → ℕ
  own_nonce none = 0
  own_nonce (some e) = e.signer_account_nonce

  abbrev pub overrun_answer : Bool → Answer → Answer
  overrun_answer overrun (err e, w) = (err e, w)
  overrun_answer true (ok t, w) = refuse w
  overrun_answer false (ok t, w) = (ok t, w)

  abbrev pub write_outcome : ℕ → Bytes → TerminalOutcome → World → Answer
  write_outcome k bytes o w = overrun_answer (fee_overrun o) (
      store_call env k (mark_terminal c (outcome_entry env record_read.id bytes o))
        (at_step c env k w))

  abbrev pub close_both : World → World
  close_both w = record w { readiness = unready w.readiness }

  -- An overrun is quarantined (statement k + 10) before the terminal entry frees the signer's slot.
  abbrev pub finalize_bytes : ℕ → TerminalOutcome → Option Bytes → World → Answer
  finalize_bytes k o none w = refuse w
  finalize_bytes k o (some bytes) w =
      if fee_overrun o
      then (if env.fails (k + 10)
          then (err StoreError.database, close_both w)
          else write_outcome k bytes o
              (quarantine_now (own_nonce record_read.evm_submission) (close_both w)))
      else write_outcome k bytes o w

  unfoldable pub finalize_reconciled_terminal : ℕ → TerminalOutcome → World → Answer
  finalize_reconciled_terminal k o w =
      finalize_bytes k o
        (env.response o.success env.transaction_failed (some record_read.payer) o.tx_hash) w

  abbrev pub rebroadcast_answered : Text → BroadcastOutcome → World → Answer
  rebroadcast_answered hash (BroadcastOutcome.terminal o) w = finalize_reconciled_terminal 6 o w
  rebroadcast_answered hash BroadcastOutcome.rejected w =
      (ok tt, terminal_transaction_rejected c env 6 record_read.id record_read.payer hash w)
  rebroadcast_answered hash BroadcastOutcome.pending w = (ok tt, w)

  unfoldable pub rebroadcast : EvmSubmission → World → Answer
  rebroadcast e v =
      let w = at_step c env 5 v in
      if can_reconciliation_broadcast w.readiness
      then rebroadcast_answered e.submitted_tx_hash env.broadcast
          (sent c env record_read.id e.submitted_tx_rlp w)
      else refuse w

  -- A nonce that has moved on means that another transaction took its place.
  abbrev pub compare_nonces : EvmSubmission → SignerHead → World → Answer
  compare_nonces e head w =
      if ltb e.signer_account_nonce head.signer_nonce
      then (if env.fails 4
          then (err StoreError.database, w)
          else refuse (close_both (quarantine_now head.signer_nonce w)))
      else (if head.signer_nonce == e.signer_account_nonce
          then rebroadcast e w
          else refuse (pause w))

  abbrev pub balance_checked :
      EvmSubmission → SignerHead → Result (Unit {0}) × ReadinessState → World → Answer
  balance_checked e head (err x, r) w = (err x, record w { readiness = r })
  balance_checked e head (ok t, r) w = compare_nonces e head (record w { readiness = r })

  abbrev pub recovery_headed : EvmSubmission → Option SignerHead × World → Answer
  recovery_headed e (none, w) = refuse w
  recovery_headed e (some head, w) =
      balance_checked e head
        (require_evm_recovery_balance env.config record_read.reserved head.signer_balance_atomic
          w.readiness)
        w

  unfoldable pub resubmit : EvmSubmission → World → Answer
  resubmit e v =
      let w = at_step c env 2 v in
      if can_reconciliation_broadcast w.readiness
      then recovery_headed e (fresh_signer_head env 3 (at_step c env 3 w))
      else refuse w

  abbrev pub resubmit_marked : EvmSubmission → Answer → Answer
  resubmit_marked e (err x, w) = (err x, w)
  resubmit_marked e (ok t, w) = resubmit e w

  -- A prepared row is marked as submitted first.
  abbrev pub recover_unknown : EvmSubmission → SettlementState → World → Answer
  recover_unknown e SettlementState.prepared w =
      resubmit_marked e (store_call env 1 (mark_submitted c record_read.id) (at_step c env 1 w))
  recover_unknown e _ w = resubmit e w

  abbrev pub verdict_reached : EvmSubmission → ReconcileVerdict → World → Answer
  verdict_reached e (ReconcileVerdict.terminal o) w = finalize_reconciled_terminal 1 o w
  verdict_reached e ReconcileVerdict.pending w = (ok tt, w)
  verdict_reached e ReconcileVerdict.indeterminate w = (ok tt, pause w)
  verdict_reached e ReconcileVerdict.unknown w = recover_unknown e record_read.state w
  verdict_reached e ReconcileVerdict.conflict w = refuse (pause w)
  verdict_reached e ReconcileVerdict.ambiguous w = refuse (pause w)

  abbrev pub is_canonical : Option EvmAuthorizationMetadata → Bool
  is_canonical none = false
  is_canonical (some d) = d.version == 2

  abbrev pub depth_kept : Option ℕ → ℕ → Bool
  depth_kept none required = false
  depth_kept (some admitted) required = not (ltb required admitted)

  abbrev pub depth_raised : Recovery → EvmSubmission → Result ℕ × World → Answer
  depth_raised q e (err x, w) = (err x, w)
  depth_raised q e (ok required, w) =
      if is_canonical record_read.authorization_metadata
        && depth_kept q.admission_confirmations required
      then (if q.valid_submission
          then verdict_reached e (q.verdict required) w
          else refuse (close_relayer w))
      else refuse w

  abbrev pub configured : Recovery → EvmSubmission → Option ℕ → World → Answer
  configured q e none w = refuse w
  configured q e (some minimum) w =
      depth_raised q e (
        store_call env 0 (raise_required_confirmations c record_read.id minimum)
          (at_step c env 0 w))

  abbrev pub with_submission : Recovery → Option EvmSubmission → World → Answer
  with_submission q none w = refuse w
  with_submission q (some e) w = configured q e q.configured_confirmations w

  abbrev pub signer_known : Recovery → Option Text → World → Answer
  signer_known q none w = refuse w
  signer_known q (some signer) w =
      if signer == env.account
      then with_submission q record_read.evm_submission w
      else refuse (close_relayer w)

  unfoldable pub reconcile_prepared_evm : Recovery → World → Answer
  unfolding resubmit finalize_reconciled_terminal
  reconcile_prepared_evm q w = signer_known q record_read.signer_address w
