-- ===== src/Journal/Run/Budget.antt =====
-- What a claim that answers with a new settlement has done.
use x402_facilitator.Prelude.{
  ◌+◌, ◌≤◌, ◌≡◌, refl, Option, none, some, List, [], ◌∷◌, ◌++◌, arith, Option-cases, inl, inr, Bool,
  true, false, ◌||◌, ◌==◌, if_cases, if◌then◌else◌, ◌&&◌, not,
}
use x402_facilitator.Journal.Types.{
  Date, NewSettlement, SettlementRecord, ClaimOutcome, Result, ok, Uuid, Text, Hash, err,
  StoreError,
}
use x402_facilitator.Journal.Ledger.{Ledgers, reserved_of, spent_of, reserve_global_budget}
use x402_facilitator.Journal.Ledger.Moves.{reserve_both_capped}
use x402_facilitator.Journal.Tables.{Collation, Db, Inserted, insert_row, is_evm, has_version_2}
use x402_facilitator.Journal.Rows.{insert_row-inserted}
use x402_facilitator.Journal.Claim.{
  new_row, reserve_both, reload, claim_reserved, claim_inserted, claimed_event,
  find_existing_settlement, find_by_hash, find_by_identifier, Snapshots, lookup_for,
  claim_settlement, early_answer, or_outcome, conflict_answer, claim_transaction, claim_unanswered,
  anchor_is_claimed, active_evm_signer_exists,
}

-- The day's totals of both ledgers are within the limits of the claim.
abbrev pub IsWithin : NewSettlement → Date → Ledgers → Type 0
IsWithin n today b =
    (reserved_of (b.global today) + spent_of (b.global today) ≤ n.global_daily_budget)
    × (reserved_of (b.client today n.api_client_id) + spent_of (b.client today n.api_client_id)
        ≤ n.client_daily_budget)

reserve_both-IsWithin :
    (n : NewSettlement) (today : Date) (b b' : Ledgers)
    → reserve_both n today b ≡ some b'
    → IsWithin n today b'
reserve_both-IsWithin n today b b' h =
    elim (Option-cases (reserve_global_budget b today n.reservation n.global_daily_budget)) [
      | inl e ↦ absurd (ground arith)
      | inr (g, e) ↦
          reserve_both_capped b b' g today n.api_client_id n.reservation n.global_daily_budget
            n.client_daily_budget e (ground arith)
    ]

module _ (c : Collation) (n : NewSettlement) (today : Date) (db : Db) where
  abbrev pub IsNew : Result ClaimOutcome × Db → Type 0
  IsNew (ok (ClaimOutcome.new r), db') =
      (db'.rows ≡ db.rows ++ new_row n today ∷ [])
      × (db'.events ≡ db.events ++ claimed_event n ∷ [])
      × IsWithin n today db'.ledgers
  IsNew (_, db') = Unit

  reload-IsNew :
      (b : Ledgers) (o : Option SettlementRecord)
      → IsWithin n today b
      → IsNew (
          reload
            (record db {
              rows = db.rows ++ new_row n today ∷ [];
              ledgers = b;
              events = db.events ++ claimed_event n ∷ [];
            })
            o)
  reload-IsNew b none h = tt
  reload-IsNew b (some r) h = (refl, refl, h)

  claim_reserved-IsNew :
      (rows : List SettlementRecord) (o : Option Ledgers)
      → rows ≡ db.rows ++ new_row n today ∷ []
      → reserve_both n today db.ledgers ≡ o
      → IsNew (claim_reserved n db rows o)
  claim_reserved-IsNew rows none e p = tt
  claim_reserved-IsNew rows (some b) e p =
      rw e (reload-IsNew b _ (reserve_both-IsWithin n today db.ledgers b p))

  claim_inserted-IsNew :
      (conflict : Result ClaimOutcome) (i : Inserted)
      → IsNew (conflict, db)
      → insert_row c (new_row n today) db.rows ≡ i
      → IsNew (claim_inserted n today conflict db i)
  claim_inserted-IsNew conflict Inserted.rejected k e = tt
  claim_inserted-IsNew conflict Inserted.conflicted k e = k
  claim_inserted-IsNew conflict (Inserted.inserted rows) k e =
      claim_reserved-IsNew rows _ (insert_row-inserted c (new_row n today) db.rows e).1 refl

-- A look-up, and the answer that follows from it, is never a new settlement.
abbrev pub is_new : Option ClaimOutcome → Bool
is_new (some (ClaimOutcome.new r)) = true
is_new _ = false

find_by_hash_old :
    (client : Uuid) (payment_hash fingerprint : Hash) (rows : List SettlementRecord)
    → is_new (find_by_hash client payment_hash fingerprint rows) ≡ false
unfolding find_by_hash
find_by_hash_old client payment_hash fingerprint [] = refl
find_by_hash_old client payment_hash fingerprint (x ∷ rows) =
    ground (arith, find_by_hash_old client payment_hash fingerprint rows)

find_by_identifier_old :
    (client : Uuid) (identifier : Text) (payment_hash fingerprint : Hash) (seen : Bool)
    (rows : List SettlementRecord)
    → is_new (find_by_identifier client identifier payment_hash fingerprint seen rows) ≡ false
unfolding find_by_identifier
find_by_identifier_old client identifier payment_hash fingerprint seen [] = ground arith
find_by_identifier_old client identifier payment_hash fingerprint seen (x ∷ rows) = ground (
  arith,
  find_by_identifier_old client identifier payment_hash fingerprint
      (seen || x.payment_hash == payment_hash) rows,
)

lookup_old : (n : NewSettlement) (rows : List SettlementRecord) → is_new (lookup_for n rows) ≡ false
unfolding find_existing_settlement
lookup_old n rows = elim (Option-cases n.payment_identifier) [
  | inl e ↦ rw e (find_by_hash_old n.api_client_id n.payment_hash n.request_fingerprint rows)
  | inr (i, e) ↦
      rw e
        (find_by_identifier_old n.api_client_id i n.payment_hash n.request_fingerprint false rows)
]

module _ (c : Collation) (n : NewSettlement) (today : Date) (db : Db) where
  old-IsNew : (o : ClaimOutcome) → is_new (some o) ≡ false → IsNew c n today db (ok o, db)
  old-IsNew (ClaimOutcome.new r) h = absurd (ground (arith, h))
  old-IsNew (ClaimOutcome.existing r) h = tt
  old-IsNew ClaimOutcome.identifier_conflict h = tt
  old-IsNew ClaimOutcome.duplicate_settlement h = tt
  old-IsNew ClaimOutcome.settlement_busy h = tt
  old-IsNew ClaimOutcome.budget_exceeded h = tt

  looked_up-IsNew :
      (x : ClaimOutcome) (o : Option ClaimOutcome)
      → is_new o ≡ false
      → is_new (some x) ≡ false
      → IsNew c n today db (ok (or_outcome o x), db)
  looked_up-IsNew x none h k = old-IsNew x k
  looked_up-IsNew x (some o) h k = old-IsNew o h

  conflict-IsNew : (s : Snapshots) → IsNew c n today db (conflict_answer c n s, db)
  unfolding conflict_answer
  conflict-IsNew s = go (lookup_for n s.conflict_lookup) (lookup_old n s.conflict_lookup)
    where
      go :
          (o : Option ClaimOutcome)
          → is_new o ≡ false
          → IsNew c n today db (
            elim o [
              | some o ↦ ok o
              | none ↦
                  if anchor_is_claimed n.anchor_scope n.anchor_value s.conflict_anchor
                  then ok ClaimOutcome.duplicate_settlement
                  else (if active_evm_signer_exists c n.chain_kind n.network n.signer_address
                        s.conflict_signer
                      then ok ClaimOutcome.settlement_busy
                      else err StoreError.corrupt)
            ],
            db,
          )
      go none h =
          if_cases (λ (x : Result ClaimOutcome). IsNew c n today db (x, db))
            (anchor_is_claimed n.anchor_scope n.anchor_value s.conflict_anchor) (λ _. tt)
            (λ _.
              if_cases (λ (x : Result ClaimOutcome). IsNew c n today db (x, db))
                (active_evm_signer_exists c n.chain_kind n.network n.signer_address
                  s.conflict_signer)
                (λ _. tt) (λ _. tt))
      go (some o) h = old-IsNew o h

  unanswered-IsNew :
      (s : Snapshots) (o : Option ClaimOutcome)
      → is_new o ≡ false
      → IsNew c n today db (claim_unanswered c n today s db o)
  unfolding claim_transaction
  unanswered-IsNew s none h = claim_inserted-IsNew c n today db _ _ (conflict-IsNew s) refl
  unanswered-IsNew s (some o) h = old-IsNew o h

  early_old : (s : Snapshots) → is_new (early_answer c n s) ≡ false
  unfolding early_answer
  early_old s = ground (
    arith,
    lookup_old n s.first_lookup,
    lookup_old n s.anchor_lookup,
    lookup_old n s.signer_lookup,
  )

  -- A claim that answers with a new settlement has appended exactly the proposed row, in the state
  -- reserved, and its event, and leaves the day's totals of the global ledger and of the client's
  -- ledger within the limits of the claim.
  pub claim_settlement-IsNew :
      (s : Snapshots) → IsNew c n today db (claim_settlement c n today s db)
  unfolding claim_settlement
  claim_settlement-IsNew s =
      if_cases (IsNew c n today db)
        (is_evm n.chain_kind && not (has_version_2 n.authorization_metadata)) (λ _. tt)
        (λ _. unanswered-IsNew s (early_answer c n s) (early_old s))
