-- ===== src/Journal/Ledger/Moves.antt =====
-- What a reservation and a release do to the two ledgers, day by day and client by client.
use x402_facilitator.Prelude.{
  ℕ, ◌+◌, ◌≤◌, ◌≡◌, ◌≢◌, true, none, some, arith, ◌==◌, ◌&&◌, is_some, if◌then◌else◌,
}
use x402_facilitator.Journal.Types.{Uuid, Date}
use x402_facilitator.Journal.Ledger.{
  Ledgers, reserved_of, spent_of, reserve_row, reserve_global_budget, reserve_client_budget,
  release_budget,
}

-- The amount, on the day and for the client that it belongs to.
abbrev pub on_day : Date → ℕ → Date → ℕ
on_day day amount d = if d == day then amount else 0

abbrev pub on_client : Date → Uuid → ℕ → Date → Uuid → ℕ
on_client day c amount d k = if d == day && k == c then amount else 0

-- Both ledgers hold `amount` more for the client's day, and no other amount moves.
pub record Reserves (b b' : Ledgers) (day : Date) (c : Uuid) (amount : ℕ) : Type 0 where
  pub global_moved :
      (d : Date)
      → (reserved_of (b'.global d) ≡ reserved_of (b.global d) + on_day day amount d)
        × (spent_of (b'.global d) ≡ spent_of (b.global d))
  pub client_moved :
      (d : Date) (k : Uuid)
      → (reserved_of (b'.client d k) ≡ reserved_of (b.client d k) + on_client day c amount d k)
        × (spent_of (b'.client d k) ≡ spent_of (b.client d k))
  pub global_kept : (d : Date) → is_some (b.global d) ≡ true → is_some (b'.global d) ≡ true
  pub client_kept :
      (d : Date) (k : Uuid) → is_some (b.client d k) ≡ true → is_some (b'.client d k) ≡ true
  pub global_there : is_some (b'.global day) ≡ true
  pub client_there : is_some (b'.client day c) ≡ true

-- Both ledgers hold `amount` less for the client's day, and have spent `actual` more.
pub record Releases (b b' : Ledgers) (day : Date) (c : Uuid) (amount actual : ℕ) : Type 0 where
  pub global_moved :
      (d : Date)
      → (reserved_of (b'.global d) + on_day day amount d ≡ reserved_of (b.global d))
        × (spent_of (b'.global d) ≡ spent_of (b.global d) + on_day day actual d)
  pub client_moved :
      (d : Date) (k : Uuid)
      → (reserved_of (b'.client d k) + on_client day c amount d k ≡ reserved_of (b.client d k))
        × (spent_of (b'.client d k) ≡ spent_of (b.client d k) + on_client day c actual d k)
  pub global_kept : (d : Date) → is_some (b.global d) ≡ true → is_some (b'.global d) ≡ true
  pub client_kept :
      (d : Date) (k : Uuid) → is_some (b.client d k) ≡ true → is_some (b'.client d k) ≡ true

module _ (b b' g : Ledgers) (day : Date) (c : Uuid) (amount : ℕ) where
  pub reserve_both-Reserves :
      (limit client_limit : ℕ)
      → reserve_global_budget b day amount limit ≡ some g
      → reserve_client_budget g day c amount client_limit ≡ some b'
      → Reserves b b' day c amount
  unfolding reserve_global_budget reserve_client_budget reserve_row
  reserve_both-Reserves limit client_limit p q = record {
    global_moved = λ d. ground arith;
    client_moved = λ d k. ground arith;
    global_kept = λ d h. ground arith;
    client_kept = λ d k h. ground arith;
    global_there = ground arith;
    client_there = ground arith;
  }

-- After a reservation the day's total of both ledgers is within its limit.
pub reserve_both_capped :
    (b b' g : Ledgers) (day : Date) (c : Uuid) (amount limit client_limit : ℕ)
    → reserve_global_budget b day amount limit ≡ some g
    → reserve_client_budget g day c amount client_limit ≡ some b'
    → (reserved_of (b'.global day) + spent_of (b'.global day) ≤ limit)
      × (reserved_of (b'.client day c) + spent_of (b'.client day c) ≤ client_limit)
unfolding reserve_global_budget reserve_client_budget reserve_row
reserve_both_capped b b' g day c amount limit client_limit p q = ground arith

pub release_budget-Releases :
    (b b' : Ledgers) (day : Date) (c : Uuid) (amount actual : ℕ)
    → release_budget b day c amount actual ≡ some b'
    → Releases b b' day c amount actual
unfolding release_budget
release_budget-Releases b b' day c amount actual p = record {
  global_moved = λ d. ground arith;
  client_moved = λ d k. ground arith;
  global_kept = λ d h. ground arith;
  client_kept = λ d k h. ground arith;
}

-- A release succeeds where both rows are there and hold the amount.
pub release_budget_succeeds :
    (b : Ledgers) (day : Date) (c : Uuid) (amount actual : ℕ)
    → is_some (b.global day) ≡ true
    → is_some (b.client day c) ≡ true
    → amount ≤ reserved_of (b.global day)
    → amount ≤ reserved_of (b.client day c)
    → release_budget b day c amount actual ≢ none
unfolding release_budget
release_budget_succeeds b day c amount actual p q h k = ground arith
