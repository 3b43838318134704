-- ===== src/Journal/Run.antt =====
-- Sequences of journal operations, in the order in which their transactions commit, on a database
-- that starts empty.
pub mod Safety
pub mod Duplicates
pub mod Budget
pub mod Terminal
pub mod Repeats
pub mod Register
use x402_facilitator.Prelude.{ℕ, ◌≡◌, refl, Option, none, some, List, [], ◌∷◌, arith}
use x402_facilitator.Journal.Types.{
  Uuid, Text, Date, NewSettlement, NearSubmission, EvmSubmission, TerminalJournalEntry,
  RetryReservation, SettlementRecord,
}
use x402_facilitator.Journal.Tables.{Collation, Db, find_row}
use x402_facilitator.Journal.Claim.{Snapshots, claim_settlement}
use x402_facilitator.Journal.Transitions.{
  mark_awaiting_retry, resume_awaiting_retry, mark_prepared, mark_prepared_evm, mark_submitted,
  mark_terminal, raise_required_confirmations, note_reconciliation,
}
use x402_facilitator.Journal.Rows.{sum_rows}
use x402_facilitator.Journal.Effects.{Effect}
use x402_facilitator.Journal.Effects.Operations.{
  mark_prepared-Effect, mark_prepared_evm-Effect, mark_submitted-Effect,
}
use x402_facilitator.Journal.Effects.Claims.{claim_settlement-Effect}
use x402_facilitator.Journal.Effects.Retries.{
  mark_awaiting_retry-Effect, resume_awaiting_retry-Effect, mark_terminal-Effect,
  raise_required_confirmations-Effect, note_reconciliation-Effect,
}
use x402_facilitator.Journal.Accounting.{IsAccounted}
use x402_facilitator.Journal.Accounting.Steps.{Effect-IsAccounted}
use x402_facilitator.Journal.Exclusive.{IsConsistent, Effect-IsConsistent}
use x402_facilitator.Journal.Lifecycle.{IsClean, Evolves, Evolves-refl, Evolves-trans}
use x402_facilitator.Journal.Lifecycle.Steps.{Effect-Evolves, Effect-IsClean}
use x402_facilitator.Journal.History.{IsHistory, IsLogged, last_state}
use x402_facilitator.Journal.History.Steps.{Effect-IsLogged}

-- One call of the store.
pub data Op : Type 0 where
  claim : NewSettlement → Date → Snapshots → Op
  relinquish : Uuid → Text → Op
  resume : RetryReservation → Date → Op
  prepare : Uuid → NearSubmission → Op
  prepare_evm : Uuid → EvmSubmission → Op
  submit : Uuid → Op
  finish : TerminalJournalEntry → Op
  raise : Uuid → ℕ → Op
  note : Uuid → Op

abbrev pub apply : Collation → Op → Db → Db
apply c (Op.claim n today s) db = (claim_settlement c n today s db).1
apply c (Op.relinquish id code) db = (mark_awaiting_retry c id code db).1
apply c (Op.resume q today) db = (resume_awaiting_retry c q today db).1
apply c (Op.prepare id e) db = (mark_prepared c id e db).1
apply c (Op.prepare_evm id e) db = (mark_prepared_evm c id e db).1
apply c (Op.submit id) db = (mark_submitted c id db).1
apply c (Op.finish e) db = (mark_terminal c e db).1
apply c (Op.raise id minimum) db = (raise_required_confirmations c id minimum db).1
apply c (Op.note id) db = (note_reconciliation c id db).1

unfoldable pub run : Collation → List Op → Db → Db
run c [] db = db
run c (o ∷ ops) db = run c ops (apply c o db)

-- The database after the migrations.
abbrev pub empty : Db
empty = record {
  rows = [];
  ledgers = record { global = λ d. none; client = λ d k. none };
  events = [];
}

pub apply-Effect : (c : Collation) (o : Op) (db : Db) → Effect c db (apply c o db)
apply-Effect c (Op.claim n today s) db = claim_settlement-Effect c n today db s
apply-Effect c (Op.relinquish id code) db = mark_awaiting_retry-Effect c id code db
apply-Effect c (Op.resume q today) db = resume_awaiting_retry-Effect c q today db
apply-Effect c (Op.prepare id e) db = mark_prepared-Effect c id e db
apply-Effect c (Op.prepare_evm id e) db = mark_prepared_evm-Effect c id e db
apply-Effect c (Op.submit id) db = mark_submitted-Effect c id db
apply-Effect c (Op.finish e) db = mark_terminal-Effect c e db
apply-Effect c (Op.raise id minimum) db = raise_required_confirmations-Effect c id minimum db
apply-Effect c (Op.note id) db = note_reconciliation-Effect c id db

abbrev pub AllClean : Db → Type 0
AllClean db = (id : Uuid) (r : SettlementRecord) → find_row id db.rows ≡ some r → IsClean r

-- What holds of the database between two operations.
pub record IsSound (c : Collation) (db : Db) : Type 0 where
  pub accounted : IsAccounted db
  pub consistent : IsConsistent c db.rows
  pub clean : AllClean db
  pub logged : IsLogged db

pub empty-IsSound : (c : Collation) → IsSound c empty
unfolding find_row last_state sum_rows
empty-IsSound c = record {
  accounted = record {
    global_sum = λ d. refl;
    client_sum = λ d k. refl;
    backed = λ id r f. ground arith;
  };
  consistent = (tt, tt);
  clean = λ id r f. ground arith;
  logged = record { history = IsHistory.start; replays = λ id. refl };
}

pub apply-IsSound : (c : Collation) (o : Op) (db : Db) → IsSound c db → IsSound c (apply c o db)
apply-IsSound c o db h =
    let e = apply-Effect c o db in
    record {
      accounted = Effect-IsAccounted c db (apply c o db) e h.accounted;
      consistent = Effect-IsConsistent c db (apply c o db) e h.consistent;
      clean = Effect-IsClean c db (apply c o db) e h.clean;
      logged = Effect-IsLogged c db (apply c o db) e h.logged;
    }

pub run-IsSound :
    (c : Collation) (ops : List Op) (db : Db) → IsSound c db → IsSound c (run c ops db)
unfolding run
run-IsSound c [] db h = h
run-IsSound c (o ∷ ops) db h = run-IsSound c ops (apply c o db) (apply-IsSound c o db h)

-- A settlement of the table is there after any further operations, developed as `Evolves` allows.
pub run-Evolves :
    (c : Collation) (ops : List Op) (db : Db) (id : Uuid) (r : SettlementRecord)
    → IsSound c db
    → find_row id db.rows ≡ some r
    → (r' : SettlementRecord) × (find_row id (run c ops db).rows ≡ some r') × Evolves r r'
unfolding run
run-Evolves c [] db id r h f = (r, f, Evolves-refl r)
run-Evolves c (o ∷ ops) db id r h f =
    let (s, g, v) = Effect-Evolves c db (apply c o db) id r (apply-Effect c o db) h.clean f in
    let (t, k, w) = run-Evolves c ops (apply c o db) id s (apply-IsSound c o db h) g in
    (t, k, Evolves-trans r s t v w)
