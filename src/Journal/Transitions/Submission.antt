-- ===== src/Journal/Transitions/Submission.antt =====
-- store.rs: `mark_prepared`, `mark_prepared_evm` and `mark_submitted`.
use x402_facilitator.Prelude.{some, ltb, if◌then◌else◌}
use x402_facilitator.Journal.Types.{
  Uuid, SettlementState, state_eq, NearSubmission, EvmSubmission, SettlementRecord, EventCode,
  StoreError, Result, ok, err,
}
use x402_facilitator.Journal.Tables.{Collation, Db, find_row, Updated, update_row}
use x402_facilitator.Journal.Transitions.Common.{event, commit, refused}

-- `mark_prepared`, `mark_prepared_evm` and `mark_submitted`: one guarded UPDATE and its event.
abbrev pub guarded_updated :
    Uuid → SettlementState → SettlementState → EventCode → Db → Updated → Result (Unit {0}) × Db
guarded_updated id from to code db Updated.no_row = refused to db (find_row id db.rows)
guarded_updated id from to code db (Updated.rejected _) = (err StoreError.database, db)
guarded_updated id from to code db (Updated.updated rows) =
    (ok tt, commit db rows db.ledgers (event id from to (some code)))

abbrev pub guarded_update :
    Collation
    → Uuid
    → SettlementState
    → SettlementState
    → EventCode
    → (SettlementRecord → SettlementRecord)
    → Db
    → Result (Unit {0}) × Db
guarded_update c id from to code change db =
    guarded_updated id from to code db (update_row c id (λ x. state_eq x.state from) change db.rows)

abbrev pub to_prepared : NearSubmission → SettlementRecord → SettlementRecord
to_prepared e r = record r { state = SettlementState.prepared; near_submission = some e }

unfoldable pub mark_prepared : Collation → Uuid → NearSubmission → Db → Result (Unit {0}) × Db
mark_prepared c id e db =
    guarded_update c id SettlementState.reserved SettlementState.prepared
      EventCode.outer_transaction_persisted (to_prepared e) db

abbrev pub to_prepared_evm : EvmSubmission → SettlementRecord → SettlementRecord
to_prepared_evm e r = record r { state = SettlementState.prepared; evm_submission = some e }

unfoldable pub mark_prepared_evm : Collation → Uuid → EvmSubmission → Db → Result (Unit {0}) × Db
mark_prepared_evm c id e db =
    if ltb e.required_confirmations 1
    then (err StoreError.invalid_input, db)
    else guarded_update c id SettlementState.reserved SettlementState.prepared
        EventCode.evm_transaction_persisted (to_prepared_evm e) db

abbrev pub to_submitted : SettlementRecord → SettlementRecord
to_submitted r = record r { state = SettlementState.submitted }

unfoldable pub mark_submitted : Collation → Uuid → Db → Result (Unit {0}) × Db
mark_submitted c id db =
    guarded_update c id SettlementState.prepared SettlementState.submitted
      EventCode.broadcast_started to_submitted db
