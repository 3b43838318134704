-- ===== src/Journal/Transitions/Common.antt =====
-- store.rs: what the transitions share: the event, the commit and the refusal.
use x402_facilitator.Prelude.{Option, none, some, List, [], ◌∷◌, ◌++◌}
use x402_facilitator.Journal.Types.{
  Uuid, SettlementState, SettlementRecord, SettlementEvent, EventCode, StoreError, Result, err,
}
use x402_facilitator.Journal.Ledger.{Ledgers}
use x402_facilitator.Journal.Tables.{Db}

-- `insert_event`.
abbrev pub event : Uuid → SettlementState → SettlementState → Option EventCode → SettlementEvent
event id from to code = record {
  settlement_id = id;
  from_state = some from;
  to_state = to;
  code = code;
}

abbrev pub commit : Db → List SettlementRecord → Ledgers → SettlementEvent → Db
commit db rows ledgers e = record db {
  rows = rows;
  ledgers = ledgers;
  events = db.events ++ e ∷ [];
}

abbrev pub wrong_state {ℓ} : {A : Type ℓ} → SettlementState → SettlementState → Result A
wrong_state from to = err (StoreError.transition (some from) (some to))

-- `state_for_update` after an UPDATE that touched no row.
abbrev pub refused : SettlementState → Db → Option SettlementRecord → Result (Unit {0}) × Db
refused to db none = (err StoreError.corrupt, db)
refused to db (some r) = (wrong_state r.state to, db)
