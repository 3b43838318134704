-- ===== src/Journal/Transitions/AwaitingRetry.antt =====
-- store.rs: `mark_awaiting_retry` and `resume_awaiting_retry`.
use x402_facilitator.Prelude.{◌+◌, Bool, Option, none, some, List, ◌==◌, if◌then◌else◌}
use x402_facilitator.Journal.Types.{
  Uuid, Text, Date, SettlementState, state_eq, RetryReservation, SettlementRecord, EventCode,
  RetryOutcome, StoreError, Result, ok, err,
}
use x402_facilitator.Journal.Ledger.{
  Ledgers, reserve_global_budget, reserve_client_budget, release_budget,
}
use x402_facilitator.Journal.Tables.{Collation, Db, Constraint, find_row, Updated, update_row}
use x402_facilitator.Journal.Transitions.Common.{event, commit, wrong_state}

abbrev pub to_awaiting_retry : Text → SettlementRecord → SettlementRecord
to_awaiting_retry code r = record r {
  state = SettlementState.awaiting_retry;
  reserved = 0;
  retry_code = some code;
}

-- The end of `mark_awaiting_retry`, by what its UPDATE did.
abbrev pub retry_updated :
    Uuid → Text → SettlementRecord → Ledgers → Db → Updated → Result (Unit {0}) × Db
retry_updated id code r b db Updated.no_row =
    (wrong_state r.state SettlementState.awaiting_retry, db)
retry_updated id code r b db (Updated.rejected _) = (err StoreError.database, db)
retry_updated id code r b db (Updated.updated rows) = (
  ok tt,
  commit db rows b (
      event id SettlementState.reserved SettlementState.awaiting_retry
        (some (EventCode.given code))),
)

abbrev pub is_reserved : SettlementRecord → Bool
is_reserved r = state_eq r.state SettlementState.reserved

abbrev pub retry_released :
    Collation → Uuid → Text → SettlementRecord → Db → Option Ledgers → Result (Unit {0}) × Db
retry_released c id code r db none = (err StoreError.corrupt, db)
retry_released c id code r db (some b) =
    retry_updated id code r b db (update_row c id is_reserved (to_awaiting_retry code) db.rows)

abbrev pub retry_found :
    Collation → Uuid → Text → Db → Option SettlementRecord → Result (Unit {0}) × Db
retry_found c id code db none = (err StoreError.corrupt, db)
retry_found c id code db (some r) =
    if is_reserved r
    then retry_released c id code r db
        (release_budget db.ledgers r.reservation_date r.api_client_id r.reserved 0)
    else (wrong_state r.state SettlementState.awaiting_retry, db)

unfoldable pub mark_awaiting_retry : Collation → Uuid → Text → Db → Result (Unit {0}) × Db
mark_awaiting_retry c id code db =
    if code == c.empty_text
    then (err StoreError.invalid_input, db)
    else retry_found c id code db (find_row id db.rows)

abbrev pub to_resumed : RetryReservation → Date → SettlementRecord → SettlementRecord
to_resumed q today r = record r {
  state = SettlementState.reserved;
  policy_snapshot = q.policy_snapshot;
  reservation_date = today;
  reserved = q.reservation;
  attempt_count = r.attempt_count + 1;
  retry_code = none;
}

abbrev pub reserve_retry : RetryReservation → Date → Uuid → Ledgers → Option Ledgers
reserve_retry q today client b =
    elim (reserve_global_budget b today q.reservation q.global_daily_budget) [
      | none ↦ none
      | some g ↦ reserve_client_budget g today client q.reservation q.client_daily_budget
    ]

-- The read after the commit.
abbrev pub reload_resumed : Db → Option SettlementRecord → Result RetryOutcome × Db
reload_resumed db none = (err StoreError.corrupt, db)
reload_resumed db (some r) = (ok (RetryOutcome.resumed r), db)

abbrev pub signer_busy : Constraint → Result RetryOutcome
signer_busy Constraint.active_signer_idx = ok RetryOutcome.settlement_busy
signer_busy _ = err StoreError.database

abbrev pub resume_reserved :
    RetryReservation → Db → List SettlementRecord → Option Ledgers → Result RetryOutcome × Db
resume_reserved q db rows none = (ok RetryOutcome.budget_exceeded, db)
resume_reserved q db rows (some b) =
    reload_resumed
      (commit db rows b (
        event q.settlement_id SettlementState.awaiting_retry SettlementState.reserved
          (some EventCode.retry_resumed)))
      (find_row q.settlement_id rows)

-- The signer slot is taken before the budgets are locked.
abbrev pub resume_updated :
    RetryReservation → Date → SettlementRecord → Db → Updated → Result RetryOutcome × Db
resume_updated q today r db Updated.no_row = (wrong_state r.state SettlementState.reserved, db)
resume_updated q today r db (Updated.rejected k) = (signer_busy k, db)
resume_updated q today r db (Updated.updated rows) =
    resume_reserved q db rows (reserve_retry q today r.api_client_id db.ledgers)

abbrev pub is_awaiting : SettlementRecord → Bool
is_awaiting r = state_eq r.state SettlementState.awaiting_retry

abbrev pub resume_found :
    Collation → RetryReservation → Date → Db → Option SettlementRecord → Result RetryOutcome × Db
resume_found c q today db none = (err StoreError.corrupt, db)
resume_found c q today db (some r) =
    if is_awaiting r
    then resume_updated q today r db
        (update_row c q.settlement_id is_awaiting (to_resumed q today) db.rows)
    else (wrong_state r.state SettlementState.reserved, db)

unfoldable pub resume_awaiting_retry :
    Collation → RetryReservation → Date → Db → Result RetryOutcome × Db
resume_awaiting_retry c q today db = resume_found c q today db (find_row q.settlement_id db.rows)
