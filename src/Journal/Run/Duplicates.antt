-- ===== src/Journal/Run/Duplicates.antt =====
-- What a claim does with a payment that the journal already knows, and with the budgets.
use x402_facilitator.Prelude.{
  ◌≡◌, refl, Bool, true, false, not, Option, none, some, List, [], ◌∷◌, arith, any, ◌==◌, if_cases,
  ◌&&◌, ◌||◌,
}
use x402_facilitator.Journal.Types.{
  Uuid, Hash, Text, Date, NewSettlement, SettlementRecord, ClaimOutcome, Result,
}
use x402_facilitator.Journal.Tables.{
  Collation, Db, Constraint, clashes, Inserted, insert_row, is_evm, has_version_2,
}
use x402_facilitator.Journal.Rows.{insert_row-inserted}
use x402_facilitator.Journal.Exclusive.{violation-none}
use x402_facilitator.Journal.Claim.{
  Snapshots, new_row, owns_identifier, find_by_identifier, claim_inserted, claim_unanswered,
  claim_settlement, find_by_hash, find_existing_settlement, conflict_answer, early_answer,
}

-- A row with this payment hash, anchor or identifier is among the rows.
abbrev pub is_known : Collation → Constraint → NewSettlement → Date → List SettlementRecord → Bool
is_known c k n today rows = any (clashes c k (new_row n today)) rows

module _ (c : Collation) (n : NewSettlement) (today : Date) (db : Db) where
  known_not_inserted :
      (k : Constraint) (conflict : Result ClaimOutcome) (i : Inserted)
      → is_known c k n today db.rows ≡ true
      → insert_row c (new_row n today) db.rows ≡ i
      → (claim_inserted n today conflict db i).1 ≡ db
  known_not_inserted k conflict Inserted.rejected h e = refl
  known_not_inserted k conflict Inserted.conflicted h e = refl
  known_not_inserted k conflict (Inserted.inserted rows) h e =
      let (v, w) = insert_row-inserted c (new_row n today) db.rows e in
      let (_, alone) = violation-none c (new_row n today) db.rows v in
      absurd (ground (arith, h, alone k))

  -- A claim whose row would meet a stored row in any unique index (the identifier, the payment
  -- hash, the client's payment identifier, the anchor, the active EVM signer) changes nothing in the
  -- database, whatever its reads outside the transaction have seen.
  pub claim_known_unchanged :
      (s : Snapshots) (k : Constraint)
      → is_known c k n today db.rows ≡ true
      → (claim_settlement c n today s db).1 ≡ db
  unfolding claim_settlement
  claim_known_unchanged s k h =
      if_cases (λ (x : Result ClaimOutcome × Db). x.1 ≡ db)
        (is_evm n.chain_kind && not (has_version_2 n.authorization_metadata)) (λ _. refl)
        (λ _. go (early_answer c n s))
    where
      go : (o : Option ClaimOutcome) → (claim_unanswered c n today s db o).1 ≡ db
      go (some o) = refl
      go none = known_not_inserted k (conflict_answer c n s) _ h refl

-- The look-up before a claim answers with a stored settlement only if it is the same client's, its
-- request fingerprint is the claim's, and it is one of the rows read.
abbrev pub IsReplayOf : Uuid → Hash → List SettlementRecord → Option ClaimOutcome → Type 0
IsReplayOf client fingerprint rows (some (ClaimOutcome.existing r)) =
    (r.api_client_id ≡ client)
    × (r.request_fingerprint ≡ fingerprint)
    × ((p : SettlementRecord → Bool) → p r ≡ true → any p rows ≡ true)
IsReplayOf client fingerprint rows o = Unit

replay_later :
    (client : Uuid) (fingerprint : Hash) (x : SettlementRecord) (rows : List SettlementRecord)
    (o : Option ClaimOutcome)
    → IsReplayOf client fingerprint rows o
    → IsReplayOf client fingerprint (x ∷ rows) o
replay_later client fingerprint x rows none h = tt
replay_later client fingerprint x rows (some (ClaimOutcome.new r)) h = tt
replay_later client fingerprint x rows (some (ClaimOutcome.existing r)) (a, b, c) =
    (a, b, λ p q. ground (arith, c p q))
replay_later client fingerprint x rows (some ClaimOutcome.identifier_conflict) h = tt
replay_later client fingerprint x rows (some ClaimOutcome.duplicate_settlement) h = tt
replay_later client fingerprint x rows (some ClaimOutcome.settlement_busy) h = tt
replay_later client fingerprint x rows (some ClaimOutcome.budget_exceeded) h = tt

find_by_hash-IsReplayOf :
    (client : Uuid) (payment_hash fingerprint : Hash) (rows : List SettlementRecord)
    → IsReplayOf client fingerprint rows (find_by_hash client payment_hash fingerprint rows)
unfolding find_by_hash
find_by_hash-IsReplayOf client payment_hash fingerprint [] = tt
find_by_hash-IsReplayOf client payment_hash fingerprint (x ∷ rows) =
    if_cases (IsReplayOf client fingerprint (x ∷ rows)) (x.payment_hash == payment_hash)
      (λ _.
        if_cases (IsReplayOf client fingerprint (x ∷ rows))
          (x.api_client_id == client && x.request_fingerprint == fingerprint)
          (λ e. (ground arith, ground arith, λ p q. ground arith)) (λ _. tt))
      (λ _.
        replay_later client fingerprint x rows _
          (find_by_hash-IsReplayOf client payment_hash fingerprint rows))

find_by_identifier-IsReplayOf :
    (client : Uuid) (identifier : Text) (payment_hash fingerprint : Hash) (seen : Bool)
    (rows : List SettlementRecord)
    → IsReplayOf client fingerprint rows
        (find_by_identifier client identifier payment_hash fingerprint seen rows)
unfolding find_by_identifier
find_by_identifier-IsReplayOf client identifier payment_hash fingerprint seen [] =
    if_cases (IsReplayOf client fingerprint []) seen (λ _. tt) (λ _. tt)
find_by_identifier-IsReplayOf client identifier payment_hash fingerprint seen (x ∷ rows) =
    if_cases (IsReplayOf client fingerprint (x ∷ rows)) (owns_identifier client identifier x)
      (λ o.
        if_cases (IsReplayOf client fingerprint (x ∷ rows)) (x.request_fingerprint == fingerprint)
          (λ e. (ground arith, ground arith, λ p q. ground arith)) (λ _. tt))
      (λ _. replay_later client fingerprint x rows _ (
        find_by_identifier-IsReplayOf client identifier payment_hash fingerprint
          (seen || x.payment_hash == payment_hash) rows))

-- The look-up before a claim, by payment identifier or by payment hash, answers with a stored
-- settlement only if that settlement is the same client's, carries the claim's request fingerprint,
-- and is one of the rows that were read.
pub find_existing_settlement-IsReplayOf :
    (client : Uuid) (identifier : Option Text) (payment_hash fingerprint : Hash)
    (rows : List SettlementRecord)
    → IsReplayOf client fingerprint rows
        (find_existing_settlement client identifier payment_hash fingerprint rows)
unfolding find_existing_settlement
find_existing_settlement-IsReplayOf client none payment_hash fingerprint rows =
    find_by_hash-IsReplayOf client payment_hash fingerprint rows
find_existing_settlement-IsReplayOf client (some identifier) payment_hash fingerprint rows =
    find_by_identifier-IsReplayOf client identifier payment_hash fingerprint false rows
