-- ===== src/Journal/Accounting/Release.antt =====
-- store.rs: `mark_terminal` and `mark_awaiting_retry` on accounted ledgers.
use x402_facilitator.Prelude.{
  ℕ, ◌≤◌, ◌≡◌, ◌≢◌, true, false, none, some, arith, ◌==◌, Option-cases, inl, inr,
}
use x402_facilitator.Journal.Types.{
  Uuid, Text, SettlementState, is_active, TerminalJournalEntry, SettlementRecord, ok,
}
use x402_facilitator.Journal.Ledger.{release_budget}
use x402_facilitator.Journal.Ledger.Moves.{release_budget_succeeds}
use x402_facilitator.Journal.Tables.{Collation, Db, find_row, other_rows, violation, update_row}
use x402_facilitator.Journal.Rows.{le-sum_rows, find_row-id, find_row-replace_row}
use x402_facilitator.Journal.Transitions.{
  mark_awaiting_retry, mark_terminal, transition_allowed, to_terminal, to_awaiting_retry,
}
use x402_facilitator.Journal.Accounting.{held, client_held, IsAccounted}
use x402_facilitator.Journal.Accounting.Steps.{transition_allowed_active}

pub release_never_refused :
    (db : Db) (id : Uuid) (r : SettlementRecord) (actual : ℕ)
    → IsAccounted db
    → find_row id db.rows ≡ some r
    → is_active r.state ≡ true
    → release_budget db.ledgers r.reservation_date r.api_client_id r.reserved actual ≢ none
release_never_refused db id r actual h f a =
    let (x, y) = h.backed id r f a in
    let g = le-sum_rows (held r.reservation_date) id db.rows r f in
    let k = le-sum_rows (client_held r.reservation_date r.api_client_id) id db.rows r f in
    release_budget_succeeds db.ledgers r.reservation_date r.api_client_id r.reserved actual x y
      (ground (arith, g, h.global_sum r.reservation_date))
      (ground (arith, k, h.client_sum r.reservation_date r.api_client_id))

-- On accounted ledgers a terminal entry that the state allows, that violates no constraint of the
-- table and whose status fits a SMALLINT is always written: the call succeeds, and the row then
-- holds the entry's state and response.
pub mark_terminal_succeeds :
    (c : Collation) (e : TerminalJournalEntry) (db : Db) (r : SettlementRecord)
    → IsAccounted db
    → find_row e.settlement_id db.rows ≡ some r
    → transition_allowed r.state e.state ≡ true
    → violation c (to_terminal e r) (other_rows e.settlement_id db.rows) ≡ none
    → e.http_status ≤ 32767
    → ((mark_terminal c e db).0 ≡ ok tt)
      × (find_row e.settlement_id (mark_terminal c e db).1.rows ≡ some (to_terminal e r))
unfolding mark_terminal update_row
mark_terminal_succeeds c e db r h f a v s =
    let (i, j) = transition_allowed_active r.state e.state a in
    elim (Option-cases
      (release_budget db.ledgers r.reservation_date r.api_client_id r.reserved e.actual)) [
        | inl n ↦ absurd (release_never_refused db e.settlement_id r e.actual h f i n)
        | inr (b, p) ↦ ground (
          arith,
          find_row-replace_row e.settlement_id e.settlement_id (to_terminal e r) db.rows r f
              (find_row-id e.settlement_id db.rows r f),
        )
      ]

-- On accounted ledgers a reserved settlement can always be relinquished, unless the retry code is
-- empty or a constraint is violated: it then awaits a retry and holds no reservation.
pub mark_awaiting_retry_succeeds :
    (c : Collation) (id : Uuid) (code : Text) (db : Db) (r : SettlementRecord)
    → IsAccounted db
    → find_row id db.rows ≡ some r
    → r.state ≡ SettlementState.reserved
    → (code == c.empty_text) ≡ false
    → violation c (to_awaiting_retry code r) (other_rows id db.rows) ≡ none
    → ((mark_awaiting_retry c id code db).0 ≡ ok tt)
      × (find_row id (mark_awaiting_retry c id code db).1.rows ≡ some (to_awaiting_retry code r))
unfolding mark_awaiting_retry update_row
mark_awaiting_retry_succeeds c id code db r h f s n v =
    elim (Option-cases
      (release_budget db.ledgers r.reservation_date r.api_client_id r.reserved 0)) [
        | inl m ↦ absurd (release_never_refused db id r 0 h f (rw s) m)
        | inr (b, p) ↦ ground (
          arith,
          find_row-replace_row id id (to_awaiting_retry code r) db.rows r f
              (find_row-id id db.rows r f),
        )
      ]
