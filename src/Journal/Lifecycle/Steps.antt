-- ===== src/Journal/Lifecycle/Steps.antt =====
-- store.rs: how rows develop under every step of the journal.
use x402_facilitator.Prelude.{
  ◌≡◌, refl, ap, ◌∙◌, some, List, arith, ◌==◌, Option-cases, Bool-cases, inl, inr,
}
use x402_facilitator.Journal.Types.{Uuid, SettlementIdentity, SettlementRecord}
use x402_facilitator.Journal.Tables.{Collation, Db, find_row, replace_row}
use x402_facilitator.Journal.Rows.{find_row-id, find_row-append, find_row-replace_row}
use x402_facilitator.Journal.Claim.{new_row}
use x402_facilitator.Journal.Effects.{Effect}
use x402_facilitator.Journal.Accounting.Steps.{Move-columns, Amend-columns, found_after}
use x402_facilitator.Journal.Lifecycle.{IsClean, Evolves, Evolves-refl, Move-Evolves, Amend-Evolves}

replaced-Evolves :
    (j : Uuid) (s : SettlementRecord) (id : Uuid) (r r' : SettlementRecord)
    (rows : List SettlementRecord)
    → find_row id rows ≡ some r
    → r'.columns ≡ r.columns
    → Evolves r r'
    → find_row j rows ≡ some s
    → (s' : SettlementRecord) × (find_row j (replace_row id r' rows) ≡ some s') × Evolves s s'
replaced-Evolves j s id r r' rows f e v g =
    let same : r'.id ≡ id = ap (λ (x : SettlementIdentity). x.id) e ∙ find_row-id id rows r f in
    let after = find_row-replace_row id j r' rows r f same in
    elim (Bool-cases (id == j)) [
      | inl hit ↦ let q : s ≡ r = ground (arith, f, g) in (r', ground arith, rw q v)
      | inr miss ↦ (s, ground arith, Evolves-refl s)
    ]

-- A row of the table, one step later.
pub Effect-Evolves :
    (c : Collation) (db db' : Db) (j : Uuid) (s : SettlementRecord)
    → Effect c db db'
    → ((id : Uuid) (r : SettlementRecord) → find_row id db.rows ≡ some r → IsClean r)
    → find_row j db.rows ≡ some s
    → (s' : SettlementRecord) × (find_row j db'.rows ≡ some s') × Evolves s s'
Effect-Evolves c db db' j s (Effect.unchanged e) k g = (s, rw e g, Evolves-refl s)
Effect-Evolves c db db' j s (Effect.claimed n today b code v p e) k g =
    (s, rw e (ground (arith, find_row-append j db.rows (new_row n today))), Evolves-refl s)
Effect-Evolves c db db' j s (Effect.moved id r r' b code f v m e) k g = rw e (
    replaced-Evolves j s id r r' db.rows f (Move-columns r r' _ b m)
      (Move-Evolves r r' (k id r f) m).0 g)
Effect-Evolves c db db' j s (Effect.amended id r r' f v m e) k g = rw e (
    replaced-Evolves j s id r r' db.rows f (Amend-columns r r' m)
      (Amend-Evolves r r' (k id r f) m).0 g)

-- Every row of the next table is clean.
pub Effect-IsClean :
    (c : Collation) (db db' : Db)
    → Effect c db db'
    → ((id : Uuid) (r : SettlementRecord) → find_row id db.rows ≡ some r → IsClean r)
    → (id : Uuid) (r : SettlementRecord) → find_row id db'.rows ≡ some r
    → IsClean r
Effect-IsClean c db db' (Effect.unchanged e) k j s g = k j s (rw e at g)
Effect-IsClean c db db' (Effect.claimed n today b code v p e) k j s g =
    elim (Option-cases (find_row j db.rows)) [
      | inl missing ↦
          let q : s ≡ new_row n today =
            ground (arith, find_row-append j db.rows (new_row n today)) in
          rw q (λ _. (refl, refl))
      | inr (s', there) ↦
          let q : s ≡ s' = ground (arith, find_row-append j db.rows (new_row n today)) in
          rw q (k j s' there)
    ]
Effect-IsClean c db db' (Effect.moved id r r' b code f v m e) k j s g =
    elim (found_after id j r r' s db.rows f (Move-columns r r' _ b m) (rw e at g)) [
      | inl (q, _) ↦ rw q (Move-Evolves r r' (k id r f) m).1
      | inr before ↦ k j s before
    ]
Effect-IsClean c db db' (Effect.amended id r r' f v m e) k j s g =
    elim (found_after id j r r' s db.rows f (Amend-columns r r' m) (rw e at g)) [
      | inl (q, _) ↦ rw q (Amend-Evolves r r' (k id r f) m).1
      | inr before ↦ k j s before
    ]
