-- ===== src/Journal/Effects.antt =====
-- The step relation of the journal: what one store operation may do to the database. The
-- operations of Claim.antt and Transitions.antt are proved to follow it in Effects/Operations.antt.
pub mod Operations
pub mod Retries
pub mod Claims
use x402_facilitator.Prelude.{ℕ, ◌≡◌, true, Option, none, some, List, [], ◌∷◌, ◌++◌}
use x402_facilitator.Journal.Types.{
  Uuid, Text, Date, SettlementState, NewSettlement, NearSubmission, EvmSubmission,
  TerminalJournalEntry, RetryReservation, SettlementRecord, SettlementEvent, EventCode,
}
use x402_facilitator.Journal.Ledger.{Ledgers, release_budget}
use x402_facilitator.Journal.Tables.{Collation, Db, find_row, replace_row, other_rows, violation}
use x402_facilitator.Journal.Claim.{new_row, reserve_both}
use x402_facilitator.Journal.Transitions.{
  to_awaiting_retry, to_resumed, reserve_retry, to_prepared, to_prepared_evm, to_submitted,
  to_terminal, transition_allowed, raise_depth, count_attempt, event,
}

-- A row moves to a new state, and the ledgers with it.
pub data Move (r r' : SettlementRecord) (b b' : Ledgers) : Type 0 where
  relinquish :
      (code : Text)
      → r.state ≡ SettlementState.reserved
      → r' ≡ to_awaiting_retry code r
      → release_budget b r.reservation_date r.api_client_id r.reserved 0 ≡ some b'
      → Move r r' b b'
  resume :
      (q : RetryReservation) (today : Date)
      → r.state ≡ SettlementState.awaiting_retry
      → r' ≡ to_resumed q today r
      → reserve_retry q today r.api_client_id b ≡ some b'
      → Move r r' b b'
  prepare :
      (e : NearSubmission)
      → r.state ≡ SettlementState.reserved
      → r' ≡ to_prepared e r
      → b' ≡ b
      → Move r r' b b'
  prepare_evm :
      (e : EvmSubmission)
      → r.state ≡ SettlementState.reserved
      → r' ≡ to_prepared_evm e r
      → b' ≡ b
      → Move r r' b b'
  submit : r.state ≡ SettlementState.prepared → r' ≡ to_submitted r → b' ≡ b → Move r r' b b'
  finish :
      (e : TerminalJournalEntry)
      → transition_allowed r.state e.state ≡ true
      → r' ≡ to_terminal e r
      → release_budget b r.reservation_date r.api_client_id r.reserved e.actual ≡ some b'
      → Move r r' b b'

-- A row is amended in its state.
pub data Amend (r r' : SettlementRecord) : Type 0 where
  raise : (minimum : ℕ) → r' ≡ raise_depth minimum r → Amend r r'
  note : r' ≡ count_attempt r → Amend r r'

pub data Effect (c : Collation) (db db' : Db) : Type 0 where
  unchanged : db' ≡ db → Effect c db db'
  claimed :
      (n : NewSettlement) (today : Date) (b : Ledgers) (code : EventCode)
      → violation c (new_row n today) db.rows ≡ none
      → reserve_both n today db.ledgers ≡ some b
      → db' ≡ record db {
        rows = db.rows ++ new_row n today ∷ [];
        ledgers = b;
        events =
            db.events
            ++ record {
              settlement_id = n.id;
              from_state = none;
              to_state = SettlementState.reserved;
              code = some code;
            }
              ∷ [];
      }
      → Effect c db db'
  moved :
      (id : Uuid) (r r' : SettlementRecord) (b : Ledgers) (code : Option EventCode)
      → find_row id db.rows ≡ some r
      → violation c r' (other_rows id db.rows) ≡ none
      → Move r r' db.ledgers b
      → db' ≡ record db {
        rows = replace_row id r' db.rows;
        ledgers = b;
        events = db.events ++ event id r.state r'.state code ∷ [];
      }
      → Effect c db db'
  amended :
      (id : Uuid) (r r' : SettlementRecord)
      → find_row id db.rows ≡ some r
      → violation c r' (other_rows id db.rows) ≡ none
      → Amend r r'
      → db' ≡ record db { rows = replace_row id r' db.rows }
      → Effect c db db'
