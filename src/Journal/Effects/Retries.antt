-- ===== src/Journal/Effects/Retries.antt =====
-- The operations that touch the sponsorship ledgers follow the step relation of the journal.
use x402_facilitator.Prelude.{
  ℕ, ◌≡◌, refl, true, Option, none, some, arith, ltb, leb, ◌==◌, if_cases,
}
use x402_facilitator.Journal.Types.{
  Uuid, Text, Date, SettlementState, is_terminal, TerminalJournalEntry, RetryReservation,
  SettlementRecord, EventCode, RetryOutcome, Result,
}
use x402_facilitator.Journal.Ledger.{Ledgers, release_budget}
use x402_facilitator.Journal.Tables.{Collation, Db, find_row, Updated, update_row}
use x402_facilitator.Journal.Rows.{update_row-updated}
use x402_facilitator.Journal.Transitions.{
  mark_awaiting_retry, resume_awaiting_retry, mark_terminal, raise_required_confirmations,
  note_reconciliation, to_awaiting_retry, to_resumed, to_terminal, raise_depth, count_attempt,
  is_reserved, is_awaiting, any_row, is_evm_in_flight, retry_updated, retry_released, retry_found,
  reload_resumed, resume_reserved, resume_updated, resume_found, reserve_retry, terminal_updated,
  given_code, terminal_released, terminal_found, transition_allowed, raise_updated, note_updated,
}
use x402_facilitator.Journal.Effects.{Move, Amend, Effect}
use x402_facilitator.Journal.Effects.Operations.{state_eq→eq}

-- The row that an UPDATE finds is the one that the transaction has locked.
same_row : {r s : SettlementRecord} (o : Option SettlementRecord) → o ≡ some r → o ≡ some s → r ≡ s
same_row o p q = cc

module _ (c : Collation) (id : Uuid) (code : Text) (db : Db) where
  retry_updated-Effect :
      (r : SettlementRecord) (b : Ledgers) (u : Updated)
      → find_row id db.rows ≡ some r
      → release_budget db.ledgers r.reservation_date r.api_client_id r.reserved 0 ≡ some b
      → update_row c id is_reserved (to_awaiting_retry code) db.rows ≡ u
      → Effect c db (retry_updated id code r b db u).1
  retry_updated-Effect r b Updated.no_row f p e = Effect.unchanged refl
  retry_updated-Effect r b (Updated.rejected k) f p e = Effect.unchanged refl
  retry_updated-Effect r b (Updated.updated rows) f p e =
      let (r', f', g, v, w) = update_row-updated c id _ _ db.rows e in
      let same : r' ≡ r = same_row (find_row id db.rows) f' f in
      let left : r'.state ≡ SettlementState.reserved =
        state_eq→eq r'.state SettlementState.reserved g in
      Effect.moved id r' (to_awaiting_retry code r') b (some (EventCode.given code)) f' v
        (Move.relinquish code left refl (rw same p)) (ground arith)

  retry_found-Effect :
      (o : Option SettlementRecord)
      → find_row id db.rows ≡ o
      → Effect c db (retry_found c id code db o).1
  retry_found-Effect none f = Effect.unchanged refl
  retry_found-Effect (some r) f =
      if_cases (λ (x : Result (Unit {0}) × Db). Effect c db x.1) (is_reserved r)
        (λ _.
          released (release_budget db.ledgers r.reservation_date r.api_client_id r.reserved 0) refl)
        (λ _. Effect.unchanged refl)
    where
      released :
          (o : Option Ledgers)
          → release_budget db.ledgers r.reservation_date r.api_client_id r.reserved 0 ≡ o
          → Effect c db (retry_released c id code r db o).1
      released none p = Effect.unchanged refl
      released (some b) p = retry_updated-Effect r b _ f p refl

  pub mark_awaiting_retry-Effect : Effect c db (mark_awaiting_retry c id code db).1
  unfolding mark_awaiting_retry
  mark_awaiting_retry-Effect =
      if_cases (λ (x : Result (Unit {0}) × Db). Effect c db x.1) (code == c.empty_text)
        (λ _. Effect.unchanged refl) (λ _. retry_found-Effect (find_row id db.rows) refl)

reload_resumed_same : (db : Db) (o : Option SettlementRecord) → (reload_resumed db o).1 ≡ db
reload_resumed_same db none = refl
reload_resumed_same db (some r) = refl

module _ (c : Collation) (q : RetryReservation) (today : Date) (db : Db) where
  resume_updated-Effect :
      (r : SettlementRecord) (u : Updated)
      → find_row q.settlement_id db.rows ≡ some r
      → update_row c q.settlement_id is_awaiting (to_resumed q today) db.rows ≡ u
      → Effect c db (resume_updated q today r db u).1
  resume_updated-Effect r Updated.no_row f e = Effect.unchanged refl
  resume_updated-Effect r (Updated.rejected k) f e = Effect.unchanged refl
  resume_updated-Effect r (Updated.updated rows) f e =
      reserve (reserve_retry q today r.api_client_id db.ledgers) refl
    where
      reserve :
          (o : Option Ledgers)
          → reserve_retry q today r.api_client_id db.ledgers ≡ o
          → Effect c db (resume_reserved q db rows o).1
      reserve none p = Effect.unchanged refl
      reserve (some b) p =
          let (r', f', g, v, w) = update_row-updated c q.settlement_id _ _ db.rows e in
          let same : r' ≡ r = same_row (find_row q.settlement_id db.rows) f' f in
          let left : r'.state ≡ SettlementState.awaiting_retry =
            state_eq→eq r'.state SettlementState.awaiting_retry g in
          Effect.moved q.settlement_id r' (to_resumed q today r') b (some EventCode.retry_resumed)
            f' v (Move.resume q today left refl (rw same p))
            (ground (
              arith,
              reload_resumed_same (resume_reserved q db rows (some b)).1
                  (find_row q.settlement_id rows),
            ))

  resume_found-Effect :
      (o : Option SettlementRecord)
      → find_row q.settlement_id db.rows ≡ o
      → Effect c db (resume_found c q today db o).1
  resume_found-Effect none f = Effect.unchanged refl
  resume_found-Effect (some r) f =
      if_cases (λ (x : Result RetryOutcome × Db). Effect c db x.1) (is_awaiting r)
        (λ _. resume_updated-Effect r _ f refl) (λ _. Effect.unchanged refl)

  pub resume_awaiting_retry-Effect : Effect c db (resume_awaiting_retry c q today db).1
  unfolding resume_awaiting_retry
  resume_awaiting_retry-Effect = resume_found-Effect (find_row q.settlement_id db.rows) refl

module _ (c : Collation) (e : TerminalJournalEntry) (db : Db) where
  terminal_updated-Effect :
      (r : SettlementRecord) (b : Ledgers) (u : Updated)
      → find_row e.settlement_id db.rows ≡ some r
      → transition_allowed r.state e.state ≡ true
      → release_budget db.ledgers r.reservation_date r.api_client_id r.reserved e.actual ≡ some b
      → update_row c e.settlement_id any_row (to_terminal e) db.rows ≡ u
      → Effect c db (terminal_updated e r b db u).1
  terminal_updated-Effect r b Updated.no_row f a p h = Effect.unchanged refl
  terminal_updated-Effect r b (Updated.rejected k) f a p h = Effect.unchanged refl
  terminal_updated-Effect r b (Updated.updated rows) f a p h =
      let (r', f', g, v, w) = update_row-updated c e.settlement_id _ _ db.rows h in
      let same : r' ≡ r = same_row (find_row e.settlement_id db.rows) f' f in
      Effect.moved e.settlement_id r' (to_terminal e r') b (given_code e.error_code) f' v
        (Move.finish e (rw same a) refl (rw same p)) (rw (w, same))

  terminal_found-Effect :
      (o : Option SettlementRecord)
      → find_row e.settlement_id db.rows ≡ o
      → Effect c db (terminal_found c e db o).1
  terminal_found-Effect none f = Effect.unchanged refl
  terminal_found-Effect (some r) f =
      if_cases (λ (x : Result (Unit {0}) × Db). Effect c db x.1) (is_terminal r.state)
        (λ _. Effect.unchanged refl)
        (λ _.
          if_cases (λ (x : Result (Unit {0}) × Db). Effect c db x.1)
            (transition_allowed r.state e.state)
            (λ a.
              released a
                (release_budget db.ledgers r.reservation_date r.api_client_id r.reserved e.actual)
                refl)
            (λ _. Effect.unchanged refl))
    where
      released :
          transition_allowed r.state e.state ≡ true
          → (o : Option Ledgers)
          → release_budget db.ledgers r.reservation_date r.api_client_id r.reserved e.actual ≡ o
          → Effect c db (terminal_released c e r db o).1
      released a none p = Effect.unchanged refl
      released a (some b) p =
          if_cases (λ (x : Result (Unit {0}) × Db). Effect c db x.1) (leb e.http_status 32767)
            (λ _. terminal_updated-Effect r b _ f a p refl) (λ _. Effect.unchanged refl)

  pub mark_terminal-Effect : Effect c db (mark_terminal c e db).1
  unfolding mark_terminal
  mark_terminal-Effect =
      if_cases (λ (x : Result (Unit {0}) × Db). Effect c db x.1) (is_terminal e.state)
        (λ _. terminal_found-Effect (find_row e.settlement_id db.rows) refl)
        (λ _. Effect.unchanged refl)

pub raise_required_confirmations-Effect :
    (c : Collation) (id : Uuid) (minimum : ℕ) (db : Db)
    → Effect c db (raise_required_confirmations c id minimum db).1
unfolding raise_required_confirmations
raise_required_confirmations-Effect c id minimum db =
    if_cases (λ (x : Result ℕ × Db). Effect c db x.1) (ltb minimum 1) (λ _. Effect.unchanged refl)
      (λ _. go _ refl)
  where
    go :
        (u : Updated)
        → update_row c id is_evm_in_flight (raise_depth minimum) db.rows ≡ u
        → Effect c db (raise_updated id db u).1
    go Updated.no_row e = Effect.unchanged refl
    go (Updated.rejected k) e = Effect.unchanged refl
    go (Updated.updated rows) e =
        let (r, f, g, v, w) = update_row-updated c id _ _ db.rows e in
        Effect.amended id r (raise_depth minimum r) f v (Amend.raise minimum refl) (rw w)

pub note_reconciliation-Effect :
    (c : Collation) (id : Uuid) (db : Db) → Effect c db (note_reconciliation c id db).1
unfolding note_reconciliation
note_reconciliation-Effect c id db = go _ refl
  where
    go :
        (u : Updated)
        → update_row c id any_row count_attempt db.rows ≡ u
        → Effect c db (note_updated db u).1
    go Updated.no_row e = Effect.unchanged refl
    go (Updated.rejected k) e = Effect.unchanged refl
    go (Updated.updated rows) e =
        let (r, f, g, v, w) = update_row-updated c id _ _ db.rows e in
        Effect.amended id r (count_attempt r) f v (Amend.note refl) (rw w)
