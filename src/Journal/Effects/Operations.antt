-- ===== src/Journal/Effects/Operations.antt =====
-- Every store operation follows the step relation of the journal.
use x402_facilitator.Prelude.{◌≡◌, refl, true, Option, none, some, arith, ltb, if_cases}
use x402_facilitator.Journal.Types.{
  Uuid, SettlementState, NearSubmission, EvmSubmission, SettlementRecord, EventCode, Result,
  state_eq,
}
use x402_facilitator.Journal.Tables.{Collation, Db, find_row, Updated, update_row}
use x402_facilitator.Journal.Rows.{update_row-updated}
use x402_facilitator.Journal.Transitions.{
  mark_prepared, mark_prepared_evm, mark_submitted, to_submitted, to_prepared, to_prepared_evm,
  guarded_updated, refused,
}
use x402_facilitator.Journal.Effects.{Move, Effect}

pub state_eq→eq : (s t : SettlementState) → state_eq s t ≡ true → s ≡ t
state_eq→eq s t h = ground arith

refused_same :
    (to : SettlementState) (db : Db) (o : Option SettlementRecord) → (refused to db o).1 ≡ db
refused_same to db none = refl
refused_same to db (some r) = refl

module _ (c : Collation) (id : Uuid) (from to : SettlementState) (code : EventCode)
    (change : SettlementRecord → SettlementRecord) (db : Db)
    (move : (r : SettlementRecord) → r.state ≡ from → Move r (change r) db.ledgers db.ledgers)
    (arrives : (r : SettlementRecord) → (change r).state ≡ to) where
  guarded-Effect :
      (u : Updated)
      → update_row c id (λ x. state_eq x.state from) change db.rows ≡ u
      → Effect c db (guarded_updated id from to code db u).1
  guarded-Effect Updated.no_row e = Effect.unchanged (refused_same to db (find_row id db.rows))
  guarded-Effect (Updated.rejected k) e = Effect.unchanged refl
  guarded-Effect (Updated.updated rows) e =
      let (r, f, g, v, w) = update_row-updated c id _ _ db.rows e in
      let left : r.state ≡ from = state_eq→eq r.state from g in
      let came : (change r).state ≡ to = arrives r in
      Effect.moved id r (change r) db.ledgers (some code) f v (move r left) (ground arith)

pub mark_submitted-Effect :
    (c : Collation) (id : Uuid) (db : Db) → Effect c db (mark_submitted c id db).1
unfolding mark_submitted
mark_submitted-Effect c id db =
    guarded-Effect c id SettlementState.prepared SettlementState.submitted
      EventCode.broadcast_started to_submitted db (λ r s. Move.submit s refl refl) (λ r. refl) _
      refl

pub mark_prepared-Effect :
    (c : Collation) (id : Uuid) (e : NearSubmission) (db : Db)
    → Effect c db (mark_prepared c id e db).1
unfolding mark_prepared
mark_prepared-Effect c id e db =
    guarded-Effect c id SettlementState.reserved SettlementState.prepared
      EventCode.outer_transaction_persisted (to_prepared e) db (λ r s. Move.prepare e s refl refl)
      (λ r. refl) _ refl

pub mark_prepared_evm-Effect :
    (c : Collation) (id : Uuid) (e : EvmSubmission) (db : Db)
    → Effect c db (mark_prepared_evm c id e db).1
unfolding mark_prepared_evm
mark_prepared_evm-Effect c id e db =
    if_cases (λ (r : Result (Unit {0}) × Db). Effect c db r.1) (ltb e.required_confirmations 1)
      (λ _. Effect.unchanged refl)
      λ _.
        guarded-Effect c id SettlementState.reserved SettlementState.prepared
          EventCode.evm_transaction_persisted (to_prepared_evm e) db
          (λ r s. Move.prepare_evm e s refl refl) (λ r. refl) _ refl
