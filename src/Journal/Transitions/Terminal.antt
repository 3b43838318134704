-- ===== src/Journal/Transitions/Terminal.antt =====
-- store.rs: `mark_terminal`.
use x402_facilitator.Prelude.{
  ℕ, Bool, true, false, Option, none, some, leb, ◌==◌, ◌&&◌, if◌then◌else◌,
}
use x402_facilitator.Journal.Types.{
  Text, SettlementState, is_terminal, TerminalResult, TerminalJournalEntry, SettlementRecord,
  EventCode, StoreError, Result, ok, err,
}
use x402_facilitator.Journal.Ledger.{Ledgers, release_budget}
use x402_facilitator.Journal.Tables.{Collation, Db, find_row, Updated, update_row}
use x402_facilitator.Journal.Transitions.Common.{event, commit, wrong_state}

abbrev or_zero : Option ℕ → ℕ
or_zero none = 0
or_zero (some n) = n

abbrev pub result_of : TerminalJournalEntry → TerminalResult
result_of e = record {
  http_status = e.http_status;
  response_bytes = e.response_bytes;
  error_code = e.error_code;
  error_detail = e.error_detail;
  gas_burnt = or_zero e.gas_burnt;
  tokens_burnt = or_zero e.tokens_burnt;
  mined_block_number = e.mined_block_number;
  mined_block_hash = e.mined_block_hash;
  confirmations = e.confirmations;
}

abbrev pub to_terminal : TerminalJournalEntry → SettlementRecord → SettlementRecord
to_terminal e r = record r { state = e.state; terminal = some (result_of e) }

-- Both the status and the body are those already stored. `i16::try_from(..).ok()` is none above
-- 32767, and so is the NULL status of a row without a result.
abbrev pub same_response : Option TerminalResult → TerminalJournalEntry → Bool
same_response none e = false
same_response (some t) e =
    leb e.http_status 32767
    && (t.http_status == e.http_status && t.response_bytes == e.response_bytes)

unfoldable pub transition_allowed : SettlementState → SettlementState → Bool
transition_allowed SettlementState.reserved SettlementState.failed = true
transition_allowed SettlementState.prepared SettlementState.succeeded = true
transition_allowed SettlementState.prepared SettlementState.failed = true
transition_allowed SettlementState.submitted SettlementState.succeeded = true
transition_allowed SettlementState.submitted SettlementState.failed = true
transition_allowed _ _ = false

abbrev pub given_code : Option Text → Option EventCode
given_code none = none
given_code (some t) = some (EventCode.given t)

abbrev pub terminal_updated :
    TerminalJournalEntry → SettlementRecord → Ledgers → Db → Updated → Result (Unit {0}) × Db
terminal_updated e r b db Updated.no_row = (err StoreError.corrupt, db)
terminal_updated e r b db (Updated.rejected _) = (err StoreError.database, db)
terminal_updated e r b db (Updated.updated rows) =
    (ok tt, commit db rows b (event e.settlement_id r.state e.state (given_code e.error_code)))

abbrev pub any_row : SettlementRecord → Bool
any_row r = true

-- The release comes first, then the status must fit a SMALLINT.
abbrev pub terminal_released :
    Collation
    → TerminalJournalEntry
    → SettlementRecord
    → Db
    → Option Ledgers
    → Result (Unit {0}) × Db
terminal_released c e r db none = (err StoreError.corrupt, db)
terminal_released c e r db (some b) =
    if leb e.http_status 32767
    then terminal_updated e r b db (update_row c e.settlement_id any_row (to_terminal e) db.rows)
    else (err StoreError.corrupt, db)

abbrev pub terminal_again : SettlementRecord → TerminalJournalEntry → Result (Unit {0})
terminal_again r e = if same_response r.terminal e then ok tt else wrong_state r.state e.state

abbrev pub terminal_found :
    Collation → TerminalJournalEntry → Db → Option SettlementRecord → Result (Unit {0}) × Db
terminal_found c e db none = (err StoreError.corrupt, db)
terminal_found c e db (some r) =
    if is_terminal r.state
    then (terminal_again r e, db)
    else (if transition_allowed r.state e.state
        then terminal_released c e r db
            (release_budget db.ledgers r.reservation_date r.api_client_id r.reserved e.actual)
        else (wrong_state r.state e.state, db))

unfoldable pub mark_terminal : Collation → TerminalJournalEntry → Db → Result (Unit {0}) × Db
unfolding transition_allowed is_terminal
mark_terminal c e db =
    if is_terminal e.state
    then terminal_found c e db (find_row e.settlement_id db.rows)
    else (err (StoreError.transition none (some e.state)), db)
