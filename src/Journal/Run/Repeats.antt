-- ===== src/Journal/Run/Repeats.antt =====
-- store.rs: `claim_settlement` for a payment that is stored.
use x402_facilitator.Journal.Run.Safety.{after}
use x402_facilitator.Journal.Exclusive.Apart.{any-find_row}
use x402_facilitator.Journal.Exclusive.{IsAlone, IsExclusive}
use x402_facilitator.Journal.Run.{Op, run-IsSound, empty, empty-IsSound, Text}
use x402_facilitator.Journal.Types.{NewSettlement, Date, Uuid, SettlementRecord, ok, ClaimOutcome}
use x402_facilitator.Journal.Claim.{
  lookup_for, claim_settlement, early_answer, find_existing_settlement, find_by_identifier,
  find_by_hash, Snapshots,
}
use x402_facilitator.Journal.Tables.{
  find_row, Collation, Constraint, clashes, is_evm, has_version_2,
}
use x402_facilitator.Prelude.{
  ◌≡◌, ap, sym, ◌∙◌, Bool, false, not, some, List, [], ◌∷◌, arith, ◌==◌, Bool-cases, inl, inr, ◌&&◌,
  ◌||◌, Option-cases,
}

module _ (c : Collation) (id : Uuid) (r : SettlementRecord) where
  -- A row before the one that is found does not clash with it.
  earlier :
      (x : SettlementRecord) (rows : List SettlementRecord) (k : Constraint)
      → IsAlone c x rows
      → find_row id rows ≡ some r
      → clashes c k x r ≡ false
  earlier x rows k a f = any-find_row (clashes c k x) id rows r (a k) f

  find_by_hash_repeat :
      (rows : List SettlementRecord)
      → IsExclusive c rows
      → find_row id rows ≡ some r
      → find_by_hash r.api_client_id r.payment_hash r.request_fingerprint rows
        ≡ some (ClaimOutcome.existing r)
  unfolding find_by_hash find_row clashes
  find_by_hash_repeat [] h f = ground arith
  find_by_hash_repeat (x ∷ rows) (a, h) f = elim (Bool-cases (x.id == id)) [
    | inl hit ↦ let here : x ≡ r = ground (arith, f) in ground (arith, here)
    | inr miss ↦
        let later : find_row id rows ≡ some r = ground (arith, f) in
        let other = earlier x rows Constraint.payment_hash_key a later in
        ground (arith, other, find_by_hash_repeat rows h later)
  ]

  find_by_identifier_repeat :
      (i : Text) (seen : Bool) (rows : List SettlementRecord)
      → IsExclusive c rows
      → find_row id rows ≡ some r
      → r.payment_identifier ≡ some i
      → find_by_identifier r.api_client_id i r.payment_hash r.request_fingerprint seen rows
        ≡ some (ClaimOutcome.existing r)
  unfolding find_by_identifier find_row clashes
  find_by_identifier_repeat i seen [] h f p = ground arith
  find_by_identifier_repeat i seen (x ∷ rows) (a, h) f p = elim (Bool-cases (x.id == id)) [
    | inl hit ↦ let here : x ≡ r = ground (arith, f) in ground (arith, here, p)
    | inr miss ↦
        let later : find_row id rows ≡ some r = ground (arith, f) in
        let other = earlier x rows Constraint.payment_identifier_idx a later in
        ground (
          arith,
          p,
          other,
          find_by_identifier_repeat i (seen || x.payment_hash == r.payment_hash) rows h later p,
        )
  ]

lookup_repeat :
    (c : Collation) (n : NewSettlement) (r : SettlementRecord) (rows : List SettlementRecord)
    → IsExclusive c rows
    → find_row r.id rows ≡ some r
    → r.api_client_id ≡ n.api_client_id
    → r.payment_hash ≡ n.payment_hash
    → r.payment_identifier ≡ n.payment_identifier
    → r.request_fingerprint ≡ n.request_fingerprint
    → lookup_for n rows ≡ some (ClaimOutcome.existing r)
unfolding find_existing_settlement
lookup_repeat c n r rows x f k h p q = elim (Option-cases n.payment_identifier) [
  | inl none_given ↦ rw (none_given, sym k, sym h, sym q) (find_by_hash_repeat c r.id r rows x f)
  | inr (i, given) ↦
      rw (given, sym k, sym h, sym q)
        (find_by_identifier_repeat c r.id r i false rows x f (p ∙ given))
]

-- After any sequence of journal operations, a claim by the client of a stored settlement, with its
-- payment hash, payment identifier and request fingerprint, whose first look-up sees the journal, is
-- answered with that settlement and changes nothing; an EVM claim must carry version 2 metadata.
pub claim_repeated :
    (c : Collation) (ops : List Op) (n : NewSettlement) (today : Date) (s : Snapshots)
    (r : SettlementRecord)
    → find_row r.id (after c ops).rows ≡ some r
    → r.api_client_id ≡ n.api_client_id
    → r.payment_hash ≡ n.payment_hash
    → r.payment_identifier ≡ n.payment_identifier
    → r.request_fingerprint ≡ n.request_fingerprint
    → (is_evm n.chain_kind && not (has_version_2 n.authorization_metadata)) ≡ false
    → s.first_lookup ≡ (after c ops).rows
    → claim_settlement c n today s (after c ops) ≡ (ok (ClaimOutcome.existing r), after c ops)
unfolding claim_settlement early_answer find_existing_settlement
claim_repeated c ops n today s r f k h p q v e =
    let x = (run-IsSound c ops empty (empty-IsSound c)).consistent.0 in
    let found = lookup_repeat c n r (after c ops).rows x f k h p q in
    ground (arith, v, ap (λ (l : List SettlementRecord). lookup_for n l) e ∙ found)
