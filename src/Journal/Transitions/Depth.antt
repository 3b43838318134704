-- ===== src/Journal/Transitions/Depth.antt =====
-- store.rs: `raise_required_confirmations` and `note_reconciliation`.
use x402_facilitator.Prelude.{
  ℕ, ◌+◌, Bool, true, false, Option, none, some, ltb, max, ◌&&◌, if◌then◌else◌,
}
use x402_facilitator.Journal.Types.{
  Uuid, SettlementState, SettlementRecord, StoreError, Result, ok, err,
}
use x402_facilitator.Journal.Tables.{Collation, Db, find_row, is_evm, Updated, update_row}
use x402_facilitator.Journal.Transitions.Terminal.{any_row}

-- GREATEST(required_confirmations, $2) is the minimum where the column is NULL, but the other
-- columns of a submission stay NULL then: such a row is not prepared.
abbrev pub raise_depth : ℕ → SettlementRecord → SettlementRecord
raise_depth minimum r = record r {
  evm_submission = elim r.evm_submission [
    | none ↦ none
    | some e ↦ some (record e { required_confirmations = max e.required_confirmations minimum })
  ];
}

abbrev pub is_in_flight : SettlementState → Bool
is_in_flight SettlementState.prepared = true
is_in_flight SettlementState.submitted = true
is_in_flight _ = false

-- RETURNING required_confirmations.
abbrev pub depth_of : Option SettlementRecord → Result ℕ
depth_of none = err StoreError.corrupt
depth_of (some r) = elim r.evm_submission [
  | none ↦ err StoreError.corrupt
  | some e ↦ ok e.required_confirmations
]

abbrev pub raise_refused : Option SettlementRecord → Result ℕ
raise_refused none = err StoreError.corrupt
raise_refused (some r) = err (StoreError.transition (some r.state) none)

abbrev pub raise_updated : Uuid → Db → Updated → Result ℕ × Db
raise_updated id db Updated.no_row = (raise_refused (find_row id db.rows), db)
raise_updated id db (Updated.rejected _) = (err StoreError.database, db)
raise_updated id db (Updated.updated rows) =
    (depth_of (find_row id rows), record db { rows = rows })

abbrev pub is_evm_in_flight : SettlementRecord → Bool
is_evm_in_flight r = is_evm r.chain_kind && is_in_flight r.state

unfoldable pub raise_required_confirmations : Collation → Uuid → ℕ → Db → Result ℕ × Db
raise_required_confirmations c id minimum db =
    if ltb minimum 1
    then (err StoreError.invalid_input, db)
    else raise_updated id db (update_row c id is_evm_in_flight (raise_depth minimum) db.rows)

abbrev pub count_attempt : SettlementRecord → SettlementRecord
count_attempt r = record r { reconciliation_attempts = r.reconciliation_attempts + 1 }

-- An UPDATE that finds no row is no error here.
abbrev pub note_updated : Db → Updated → Result (Unit {0}) × Db
note_updated db Updated.no_row = (ok tt, db)
note_updated db (Updated.rejected _) = (err StoreError.database, db)
note_updated db (Updated.updated rows) = (ok tt, record db { rows = rows })

unfoldable pub note_reconciliation : Collation → Uuid → Db → Result (Unit {0}) × Db
note_reconciliation c id db = note_updated db (update_row c id any_row count_attempt db.rows)
