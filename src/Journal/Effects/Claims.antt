-- ===== src/Journal/Effects/Claims.antt =====
-- store.rs: `claim_settlement` as a step of the journal.
use x402_facilitator.Prelude.{◌≡◌, refl, Option, none, some, if_cases, ◌&&◌, not}
use x402_facilitator.Journal.Types.{
  Date, NewSettlement, SettlementRecord, EventCode, ClaimOutcome, Result,
}
use x402_facilitator.Journal.Ledger.{Ledgers}
use x402_facilitator.Journal.Tables.{
  Collation, Db, find_row, Inserted, insert_row, is_evm, has_version_2,
}
use x402_facilitator.Journal.Rows.{insert_row-inserted}
use x402_facilitator.Journal.Claim.{
  Snapshots, new_row, reserve_both, reload, claim_reserved, claim_inserted, claim_settlement,
  claim_unanswered, early_answer, conflict_answer,
}
use x402_facilitator.Journal.Effects.{Effect}

reload_same : (db : Db) (o : Option SettlementRecord) → (reload db o).1 ≡ db
reload_same db none = refl
reload_same db (some r) = refl

module _ (c : Collation) (n : NewSettlement) (today : Date) (db : Db) where
  claim_inserted-Effect :
      (conflict : Result ClaimOutcome) (i : Inserted)
      → insert_row c (new_row n today) db.rows ≡ i
      → Effect c db (claim_inserted n today conflict db i).1
  claim_inserted-Effect conflict Inserted.rejected e = Effect.unchanged refl
  claim_inserted-Effect conflict Inserted.conflicted e = Effect.unchanged refl
  claim_inserted-Effect conflict (Inserted.inserted rows) e =
      reserve (reserve_both n today db.ledgers) refl
    where
      reserve :
          (o : Option Ledgers)
          → reserve_both n today db.ledgers ≡ o
          → Effect c db (claim_reserved n db rows o).1
      reserve none p = Effect.unchanged refl
      reserve (some b) p =
          let (v, w) = insert_row-inserted c (new_row n today) db.rows e in
          Effect.claimed n today b EventCode.claimed v p
            (rw (reload_same _ (find_row n.id rows), w))

  pub claim_settlement-Effect : (s : Snapshots) → Effect c db (claim_settlement c n today s db).1
  unfolding claim_settlement
  claim_settlement-Effect s =
      if_cases (λ (x : Result ClaimOutcome × Db). Effect c db x.1)
        (is_evm n.chain_kind && not (has_version_2 n.authorization_metadata))
        (λ _. Effect.unchanged refl) (λ _. go (early_answer c n s))
    where
      go : (o : Option ClaimOutcome) → Effect c db (claim_unanswered c n today s db o).1
      go (some o) = Effect.unchanged refl
      go none = claim_inserted-Effect (conflict_answer c n s) _ refl
