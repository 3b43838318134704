-- ===== src/Journal/Accounting.antt =====
-- store.rs: the sponsorship ledgers beside what the active settlements of a day hold.
pub mod Release
pub mod Steps
use x402_facilitator.Prelude.{
  ℕ, ◌+◌, ◌≡◌, refl, Bool, true, Option, none, some, List, ◌++◌, [], ◌∷◌, arith, ◌==◌, ◌&&◌,
  is_some, if◌then◌else◌, Option-cases, inl, inr,
}
use x402_facilitator.Journal.Types.{
  Uuid, Date, SettlementState, is_active, NewSettlement, RetryReservation, SettlementRecord,
}
use x402_facilitator.Journal.Ledger.{Ledgers, reserved_of, reserve_global_budget, release_budget}
use x402_facilitator.Journal.Ledger.Moves.{
  Reserves, Releases, reserve_both-Reserves, release_budget-Releases,
}
use x402_facilitator.Journal.Tables.{Collation, Db, find_row, replace_row}
use x402_facilitator.Journal.Rows.{
  find_row-id, find_row-replace_row, find_row-append, sum_rows, sum_rows-replace_row,
  sum_rows-append,
}
use x402_facilitator.Journal.Claim.{new_row, reserve_both}
use x402_facilitator.Journal.Transitions.{reserve_retry, transition_allowed}
use x402_facilitator.Journal.Effects.{Move, Amend, Effect}

-- What a row holds of a day's global ledger.
abbrev pub held : Date → SettlementRecord → ℕ
held d r = if is_active r.state && d == r.reservation_date then r.reserved else 0

-- What a row holds of a client's ledger for a day.
abbrev pub client_held : Date → Uuid → SettlementRecord → ℕ
client_held d k r =
    if is_active r.state && (d == r.reservation_date && k == r.api_client_id) then r.reserved else 0

abbrev pub IsBacked : Ledgers → SettlementRecord → Type 0
IsBacked b r =
    is_active r.state ≡ true
    → (is_some (b.global r.reservation_date) ≡ true)
      × (is_some (b.client r.reservation_date r.api_client_id) ≡ true)

pub record IsAccounted (db : Db) : Type 0 where
  pub global_sum : (d : Date) → reserved_of (db.ledgers.global d) ≡ sum_rows (held d) db.rows
  pub client_sum :
      (d : Date) (k : Uuid)
      → reserved_of (db.ledgers.client d k) ≡ sum_rows (client_held d k) db.rows
  pub backed :
      (id : Uuid) (r : SettlementRecord) → find_row id db.rows ≡ some r → IsBacked db.ledgers r

-- The ledgers move by what the row moves.
pub record Balances (r r' : SettlementRecord) (b b' : Ledgers) : Type 0 where
  pub global_moved :
      (d : Date) → reserved_of (b'.global d) + held d r ≡ reserved_of (b.global d) + held d r'
  pub client_moved :
      (d : Date) (k : Uuid)
      → reserved_of (b'.client d k) + client_held d k r
        ≡ reserved_of (b.client d k) + client_held d k r'
  pub global_kept : (d : Date) → is_some (b.global d) ≡ true → is_some (b'.global d) ≡ true
  pub client_kept :
      (d : Date) (k : Uuid) → is_some (b.client d k) ≡ true → is_some (b'.client d k) ≡ true
  pub still_backed : IsBacked b r → IsBacked b' r'

-- A row that stops being active gives back what it held.
pub gives_back :
    (r r' : SettlementRecord) (b b' : Ledgers) (actual : ℕ)
    → is_active r.state ≡ true
    → is_active r'.state ≡ Bool.false
    → Releases b b' r.reservation_date r.api_client_id r.reserved actual
    → Balances r r' b b'
gives_back r r' b b' actual a i m = record {
  global_moved = λ d. ground (arith, m.global_moved d);
  client_moved = λ d k. ground (arith, m.client_moved d k);
  global_kept = m.global_kept;
  client_kept = m.client_kept;
  still_backed = λ _ h. ground arith;
}

-- A row that becomes active takes its reservation.
pub takes :
    (r r' : SettlementRecord) (b b' : Ledgers)
    → is_active r.state ≡ Bool.false
    → is_active r'.state ≡ true
    → Reserves b b' r'.reservation_date r'.api_client_id r'.reserved
    → Balances r r' b b'
takes r r' b b' i a m = record {
  global_moved = λ d. ground (arith, m.global_moved d);
  client_moved = λ d k. ground (arith, m.client_moved d k);
  global_kept = m.global_kept;
  client_kept = m.client_kept;
  still_backed = λ _ _. (m.global_there, m.client_there);
}

-- A row that stays active, with the same reservation, moves nothing.
pub keeps :
    (r r' : SettlementRecord) (b b' : Ledgers)
    → b' ≡ b
    → is_active r.state ≡ is_active r'.state
    → r.reserved ≡ r'.reserved
    → r.reservation_date ≡ r'.reservation_date
    → r.api_client_id ≡ r'.api_client_id
    → Balances r r' b b'
keeps r r' b b' e a v d k = rw e (record {
  global_moved = λ x. ground arith;
  client_moved = λ x y. ground arith;
  global_kept = λ x h. h;
  client_kept = λ x y h. h;
  still_backed = λ h p. ground (arith, h);
})

pub reserve_retry-Reserves :
    (q : RetryReservation) (today : Date) (client : Uuid) (b b' : Ledgers)
    → reserve_retry q today client b ≡ some b'
    → Reserves b b' today client q.reservation
reserve_retry-Reserves q today client b b' h =
    elim (Option-cases (reserve_global_budget b today q.reservation q.global_daily_budget)) [
      | inl e ↦ absurd (ground arith)
      | inr (g, e) ↦
          reserve_both-Reserves b b' g today client q.reservation q.global_daily_budget
            q.client_daily_budget e (ground arith)
    ]

pub reserve_both_claim-Reserves :
    (n : NewSettlement) (today : Date) (b b' : Ledgers)
    → reserve_both n today b ≡ some b'
    → Reserves b b' today n.api_client_id n.reservation
reserve_both_claim-Reserves n today b b' h =
    elim (Option-cases (reserve_global_budget b today n.reservation n.global_daily_budget)) [
      | inl e ↦ absurd (ground arith)
      | inr (g, e) ↦
          reserve_both-Reserves b b' g today n.api_client_id n.reservation n.global_daily_budget
            n.client_daily_budget e (ground arith)
    ]
