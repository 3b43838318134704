-- ===== src/Journal/Claim.antt =====
-- store.rs: `find_existing_settlement`, `anchor_is_claimed`, `active_evm_signer_exists` and
-- `claim_settlement`. A claim reads outside its transaction; each such read sees a state of its
-- own, since other requests may commit in between.
use x402_facilitator.Prelude.{
  Bool, false, not, Option, none, some, List, [], ◌∷◌, ◌++◌, ◌==◌, any, ◌&&◌, ◌||◌, if◌then◌else◌,
}
use x402_facilitator.Journal.Types.{
  Uuid, Text, Hash, Date, ChainKind, SettlementState, is_active, NewSettlement, SettlementRecord,
  SettlementEvent, EventCode, ClaimOutcome, StoreError, Result, ok, err,
}
use x402_facilitator.Journal.Ledger.{Ledgers, reserve_global_budget, reserve_client_budget}
use x402_facilitator.Journal.Tables.{
  Collation, Db, find_row, has_version_2, is_evm, same_signer, Inserted, insert_row,
}

abbrev pub owns_identifier : Uuid → Text → SettlementRecord → Bool
owns_identifier client identifier r =
    r.api_client_id == client
    && elim r.payment_identifier [ none ↦ false | some i ↦ i == identifier ]

-- The loop over the rows that the identifier or the payment hash selects. `seen` is
-- `payment_hash_exists`.
unfoldable pub find_by_identifier :
    Uuid → Text → Hash → Hash → Bool → List SettlementRecord → Option ClaimOutcome
find_by_identifier client identifier payment_hash fingerprint seen [] =
    if seen then some ClaimOutcome.duplicate_settlement else none
find_by_identifier client identifier payment_hash fingerprint seen (r ∷ rows) =
    let rest =
      find_by_identifier client identifier payment_hash fingerprint
        (seen || r.payment_hash == payment_hash) rows in
    if owns_identifier client identifier r
    then (if r.request_fingerprint == fingerprint
        then some (ClaimOutcome.existing r)
        else some ClaimOutcome.identifier_conflict)
    else rest

unfoldable pub find_by_hash : Uuid → Hash → Hash → List SettlementRecord → Option ClaimOutcome
find_by_hash client payment_hash fingerprint [] = none
find_by_hash client payment_hash fingerprint (r ∷ rows) =
    if r.payment_hash == payment_hash
    then (if r.api_client_id == client && r.request_fingerprint == fingerprint
        then some (ClaimOutcome.existing r)
        else some ClaimOutcome.duplicate_settlement)
    else find_by_hash client payment_hash fingerprint rows

unfoldable pub find_existing_settlement :
    Uuid → Option Text → Hash → Hash → List SettlementRecord → Option ClaimOutcome
unfolding find_by_identifier find_by_hash
find_existing_settlement client (some identifier) payment_hash fingerprint rows =
    find_by_identifier client identifier payment_hash fingerprint false rows
find_existing_settlement client none payment_hash fingerprint rows =
    find_by_hash client payment_hash fingerprint rows

unfoldable pub anchor_is_claimed : Text → Hash → List SettlementRecord → Bool
anchor_is_claimed scope value rows =
    any (λ r. r.anchor_scope == scope && r.anchor_value == value) rows

unfoldable pub active_evm_signer_exists :
    Collation → ChainKind → Text → Option Text → List SettlementRecord → Bool
active_evm_signer_exists c ChainKind.near network signer rows = false
active_evm_signer_exists c ChainKind.eip155 network signer rows =
    any
      (λ r.
        (is_evm r.chain_kind && is_active r.state)
        && (r.network == network && same_signer c r.signer_address signer))
      rows

-- What each read outside the transaction sees.
pub record Snapshots : Type 0 where
  pub first_lookup : List SettlementRecord
  pub anchor_check : List SettlementRecord
  pub anchor_lookup : List SettlementRecord
  pub signer_check : List SettlementRecord
  pub signer_lookup : List SettlementRecord
  pub conflict_lookup : List SettlementRecord
  pub conflict_anchor : List SettlementRecord
  pub conflict_signer : List SettlementRecord

-- The row that the INSERT proposes.
abbrev pub new_row : NewSettlement → Date → SettlementRecord
new_row n today = record {
  columns = n.columns;
  state = SettlementState.reserved;
  policy_snapshot = n.policy_snapshot;
  reservation_date = today;
  reserved = n.reservation;
  near_submission = none;
  evm_submission = none;
  attempt_count = 1;
  retry_code = none;
  terminal = none;
  reconciliation_attempts = 0;
}

abbrev pub lookup_for : NewSettlement → List SettlementRecord → Option ClaimOutcome
lookup_for n rows =
    find_existing_settlement n.api_client_id n.payment_identifier n.payment_hash
      n.request_fingerprint rows

abbrev pub reserve_both : NewSettlement → Date → Ledgers → Option Ledgers
reserve_both n today b = elim (reserve_global_budget b today n.reservation n.global_daily_budget) [
  | none ↦ none
  | some g ↦ reserve_client_budget g today n.api_client_id n.reservation n.client_daily_budget
]

abbrev pub claimed_event : NewSettlement → SettlementEvent
claimed_event n = record {
  settlement_id = n.id;
  from_state = none;
  to_state = SettlementState.reserved;
  code = some EventCode.claimed;
}

-- The read after the commit.
abbrev pub reload : Db → Option SettlementRecord → Result ClaimOutcome × Db
reload db none = (err StoreError.corrupt, db)
reload db (some r) = (ok (ClaimOutcome.new r), db)

abbrev pub claim_reserved :
    NewSettlement → Db → List SettlementRecord → Option Ledgers → Result ClaimOutcome × Db
claim_reserved n db rows none = (ok ClaimOutcome.budget_exceeded, db)
claim_reserved n db rows (some b) =
    reload (record db { rows = rows; ledgers = b; events = db.events ++ claimed_event n ∷ [] })
      (find_row n.id rows)

-- The transaction: the row first, then both budgets, then the event; a denial rolls all back.
abbrev pub claim_inserted :
    NewSettlement → Date → Result ClaimOutcome → Db → Inserted → Result ClaimOutcome × Db
claim_inserted n today conflict db Inserted.rejected = (err StoreError.database, db)
claim_inserted n today conflict db Inserted.conflicted = (conflict, db)
claim_inserted n today conflict db (Inserted.inserted rows) =
    claim_reserved n db rows (reserve_both n today db.ledgers)

unfoldable pub claim_transaction :
    Collation → NewSettlement → Date → Result ClaimOutcome → Db → Result ClaimOutcome × Db
claim_transaction c n today conflict db =
    claim_inserted n today conflict db (insert_row c (new_row n today) db.rows)

-- The answer after an INSERT that inserted nothing.
unfoldable pub conflict_answer : Collation → NewSettlement → Snapshots → Result ClaimOutcome
conflict_answer c n s = elim (lookup_for n s.conflict_lookup) [
  | some o ↦ ok o
  | none ↦
      if anchor_is_claimed n.anchor_scope n.anchor_value s.conflict_anchor
      then ok ClaimOutcome.duplicate_settlement
      else (if active_evm_signer_exists c n.chain_kind n.network n.signer_address s.conflict_signer
          then ok ClaimOutcome.settlement_busy
          else err StoreError.corrupt)
]

abbrev pub or_outcome : Option ClaimOutcome → ClaimOutcome → ClaimOutcome
or_outcome none o = o
or_outcome (some e) o = e

-- The reads before the transaction, which may answer at once.
unfoldable pub early_answer : Collation → NewSettlement → Snapshots → Option ClaimOutcome
early_answer c n s = elim (lookup_for n s.first_lookup) [
  | some o ↦ some o
  | none ↦
      if anchor_is_claimed n.anchor_scope n.anchor_value s.anchor_check
      then some (or_outcome (lookup_for n s.anchor_lookup) ClaimOutcome.duplicate_settlement)
      else (if active_evm_signer_exists c n.chain_kind n.network n.signer_address s.signer_check
          then some (or_outcome (lookup_for n s.signer_lookup) ClaimOutcome.settlement_busy)
          else none)
]

abbrev pub claim_unanswered :
    Collation
    → NewSettlement
    → Date
    → Snapshots
    → Db
    → Option ClaimOutcome
    → Result ClaimOutcome × Db
claim_unanswered c n today s db (some o) = (ok o, db)
claim_unanswered c n today s db none = claim_transaction c n today (conflict_answer c n s) db

unfoldable pub claim_settlement :
    Collation → NewSettlement → Date → Snapshots → Db → Result ClaimOutcome × Db
unfolding claim_transaction conflict_answer early_answer
claim_settlement c n today s db =
    if is_evm n.chain_kind && not (has_version_2 n.authorization_metadata)
    then (err StoreError.invalid_input, db)
    else claim_unanswered c n today s db (early_answer c n s)
