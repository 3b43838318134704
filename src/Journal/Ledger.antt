-- ===== src/Journal/Ledger.antt =====
-- store.rs: the two sponsorship ledgers, `daily_global_sponsorship` and
-- `daily_client_sponsorship`, and the statements that reserve from them and release to them.
pub mod Moves
use x402_facilitator.Prelude.{ℕ, ◌+◌, ◌-◌, Option, none, some, leb, ◌==◌, ◌&&◌, if◌then◌else◌}
use x402_facilitator.Journal.Types.{Uuid, Date}

-- The two amounts of one ledger row.
pub record Sponsorship : Type 0 where
  pub reserved : ℕ
  pub spent : ℕ

-- `none` is a row that was never inserted.
pub record Ledgers : Type 0 where
  pub global : Date → Option Sponsorship
  pub client : Date → Uuid → Option Sponsorship

abbrev pub reserved_of : Option Sponsorship → ℕ
reserved_of none = 0
reserved_of (some l) = l.reserved

abbrev pub spent_of : Option Sponsorship → ℕ
spent_of none = 0
spent_of (some l) = l.spent

-- The INSERT .. SELECT .. WHERE .. ON CONFLICT DO UPDATE .. WHERE of both reservations: the row
-- after it, or `none` if nothing was inserted or updated.
unfoldable pub reserve_row : Option Sponsorship → ℕ → ℕ → Option Sponsorship
reserve_row none amount limit =
    if leb amount limit then some (record { reserved = amount; spent = 0 }) else none
reserve_row (some l) amount limit =
    if leb amount limit
    then (if leb (l.reserved + l.spent + amount) limit
        then some (record l { reserved = l.reserved + amount })
        else none)
    else none

-- The UPDATE .. WHERE reserved >= .. of the release, on one ledger.
unfoldable pub release_row : Option Sponsorship → ℕ → ℕ → Option Sponsorship
release_row none amount actual = none
release_row (some l) amount actual =
    if leb amount l.reserved
    then some (record { reserved = l.reserved - amount; spent = l.spent + actual })
    else none

abbrev pub set_global : Ledgers → Date → Sponsorship → Ledgers
set_global b day row = record b { global = λ d. if d == day then some row else b.global d }

abbrev pub set_client : Ledgers → Date → Uuid → Sponsorship → Ledgers
set_client b day c row = record b {
  client = λ d k. if d == day && k == c then some row else b.client d k;
}

unfoldable pub reserve_global_budget : Ledgers → Date → ℕ → ℕ → Option Ledgers
unfolding reserve_row
reserve_global_budget b day amount limit = elim (reserve_row (b.global day) amount limit) [
  | none ↦ none
  | some row ↦ some (set_global b day row)
]

unfoldable pub reserve_client_budget : Ledgers → Date → Uuid → ℕ → ℕ → Option Ledgers
unfolding reserve_row
reserve_client_budget b day c amount limit = elim (reserve_row (b.client day c) amount limit) [
  | none ↦ none
  | some row ↦ some (set_client b day c row)
]

-- Both updates must touch one row.
abbrev release_both :
    Ledgers → Date → Uuid → Option Sponsorship → Option Sponsorship → Option Ledgers
release_both b day c (some g) (some k) = some (set_client (set_global b day g) day c k)
release_both b day c (some g) none = none
release_both b day c none k = none

-- `none` is the error "sponsorship reservation ledger row is missing".
unfoldable pub release_budget : Ledgers → Date → Uuid → ℕ → ℕ → Option Ledgers
unfolding release_row
release_budget b day c amount actual =
    release_both b day c (release_row (b.global day) amount actual)
      (release_row (b.client day c) amount actual)
