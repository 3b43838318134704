-- ===== src/Journal/Exclusive.antt =====
-- migrations/*.sql: the unique indexes and the CHECKs as an invariant of the table.
pub mod Apart
use x402_facilitator.Prelude.{
  ◌≡◌, refl, Bool, true, false, none, some, List, [], ◌∷◌, ◌++◌, arith, any, ◌||◌, Bool-cases, inl,
  inr, ◌==◌, sym, ◌∙◌,
}
use x402_facilitator.Journal.Types.{Uuid, SettlementRecord}
use x402_facilitator.Journal.Tables.{
  Collation, Db, Constraint, find_row, replace_row, other_rows, satisfies_checks, clashes,
  violation,
}
use x402_facilitator.Journal.Effects.{Effect}

-- The row clashes with none of the others.
abbrev pub IsAlone : Collation → SettlementRecord → List SettlementRecord → Type 0
IsAlone c r rows = (k : Constraint) → any (clashes c k r) rows ≡ false

abbrev pub IsExclusive : Collation → List SettlementRecord → Type 0
IsExclusive c [] = Unit {0}
IsExclusive c (r ∷ rows) = IsAlone c r rows × IsExclusive c rows

abbrev pub IsChecked : Collation → List SettlementRecord → Type 0
IsChecked c [] = Unit {0}
IsChecked c (r ∷ rows) = (satisfies_checks c r ≡ true) × IsChecked c rows

pub clashes_comm :
    (c : Collation) (k : Constraint) (r o : SettlementRecord) → clashes c k r o ≡ clashes c k o r
unfolding clashes
clashes_comm c Constraint.check_violation r o = refl
clashes_comm c Constraint.primary_key r o = ground arith
clashes_comm c Constraint.payment_hash_key r o = ground arith
clashes_comm c Constraint.payment_identifier_idx r o = ground arith
clashes_comm c Constraint.relayer_nonce_idx r o = ground arith
clashes_comm c Constraint.anchor_unique r o = ground arith
clashes_comm c Constraint.active_signer_idx r o = ground arith
clashes_comm c Constraint.signer_nonce_idx r o = ground arith

any-check_violation :
    (c : Collation) (r : SettlementRecord) (rows : List SettlementRecord)
    → any (clashes c Constraint.check_violation r) rows ≡ false
unfolding clashes
any-check_violation c r [] = refl
any-check_violation c r (x ∷ rows) = any-check_violation c r rows

-- A version of a row that violates nothing passes its CHECKs and is alone.
pub violation-none :
    (c : Collation) (r : SettlementRecord) (others : List SettlementRecord)
    → violation c r others ≡ none
    → (satisfies_checks c r ≡ true) × IsAlone c r others
unfolding violation
violation-none c r others h = (ground arith, alone)
  where
    alone : (k : Constraint) → any (clashes c k r) others ≡ false
    alone Constraint.check_violation = any-check_violation c r others
    alone Constraint.primary_key = ground arith
    alone Constraint.payment_hash_key = ground arith
    alone Constraint.payment_identifier_idx = ground arith
    alone Constraint.relayer_nonce_idx = ground arith
    alone Constraint.anchor_unique = ground arith
    alone Constraint.active_signer_idx = ground arith
    alone Constraint.signer_nonce_idx = ground arith

any-append_one :
    (p : SettlementRecord → Bool) (rows : List SettlementRecord) (new : SettlementRecord)
    → any p rows ≡ false
    → p new ≡ false
    → any p (rows ++ new ∷ []) ≡ false
any-append_one p [] new h e = ground arith
any-append_one p (x ∷ rows) new h e = ground (arith, any-append_one p rows new)

any-replace_row :
    (p : SettlementRecord → Bool) (id : Uuid) (new : SettlementRecord)
    (rows : List SettlementRecord)
    → any p rows ≡ false
    → p new ≡ false
    → any p (replace_row id new rows) ≡ false
unfolding replace_row
any-replace_row p id new [] h e = refl
any-replace_row p id new (x ∷ rows) h e = ground (arith, any-replace_row p id new rows)

module _ (c : Collation) (new : SettlementRecord) where
  append-IsExclusive :
      (rows : List SettlementRecord)
      → IsAlone c new rows
      → IsExclusive c rows
      → IsExclusive c (rows ++ new ∷ [])
  append-IsExclusive [] a h = (λ k. refl, tt)
  append-IsExclusive (x ∷ rows) a (ax, h) = (
    λ k.
        any-append_one (clashes c k x) rows new (ax k)
          (ground (arith, a k, clashes_comm c k x new)),
    append-IsExclusive rows (λ k. ground (arith, a k)) h,
  )

  replace-IsExclusive :
      (id : Uuid) (rows : List SettlementRecord)
      → IsAlone c new (other_rows id rows)
      → IsExclusive c rows
      → IsExclusive c (replace_row id new rows)
  unfolding replace_row other_rows
  replace-IsExclusive id [] a h = tt
  replace-IsExclusive id (x ∷ rows) a (ax, h) = elim (Bool-cases (x.id == id)) [
    | inl e ↦ rw e (λ k. ground (arith, a k), h)
    | inr e ↦
        let a' : IsAlone c new (x ∷ other_rows id rows) = λ k. ground (arith, a k) in
        rw e (
          λ k.
              any-replace_row (clashes c k x) id new rows (ax k)
                (ground (arith, a' k, clashes_comm c k x new)),
          replace-IsExclusive id rows (λ k. ground (arith, a' k)) h,
        )
  ]

  append-IsChecked :
      (rows : List SettlementRecord)
      → satisfies_checks c new ≡ true
      → IsChecked c rows
      → IsChecked c (rows ++ new ∷ [])
  append-IsChecked [] a h = (a, tt)
  append-IsChecked (x ∷ rows) a (ax, h) = (ax, append-IsChecked rows a h)

  replace-IsChecked :
      (id : Uuid) (rows : List SettlementRecord)
      → satisfies_checks c new ≡ true
      → IsChecked c rows
      → IsChecked c (replace_row id new rows)
  unfolding replace_row
  replace-IsChecked id [] a h = tt
  replace-IsChecked id (x ∷ rows) a (ax, h) = elim (Bool-cases (x.id == id)) [
    | inl e ↦ rw e (a, h)
    | inr e ↦ rw e (ax, replace-IsChecked id rows a h)
  ]

abbrev pub IsConsistent : Collation → List SettlementRecord → Type 0
IsConsistent c rows = IsExclusive c rows × IsChecked c rows

-- Every step leaves a table in which no two rows clash and every row passes its CHECKs.
pub Effect-IsConsistent :
    (c : Collation) (db db' : Db)
    → Effect c db db'
    → IsConsistent c db.rows
    → IsConsistent c db'.rows
Effect-IsConsistent c db db' (Effect.unchanged e) h = rw e h
Effect-IsConsistent c db db' (Effect.claimed n today b code v p e) (x, y) =
    let (ok_checks, alone) = violation-none c _ db.rows v in
    rw e (append-IsExclusive c _ db.rows alone x, append-IsChecked c _ db.rows ok_checks y)
Effect-IsConsistent c db db' (Effect.moved id r r' b code f v m e) (x, y) =
    let (ok_checks, alone) = violation-none c r' (other_rows id db.rows) v in
    rw e
      (replace-IsExclusive c r' id db.rows alone x, replace-IsChecked c r' id db.rows ok_checks y)
Effect-IsConsistent c db db' (Effect.amended id r r' f v m e) (x, y) =
    let (ok_checks, alone) = violation-none c r' (other_rows id db.rows) v in
    rw e
      (replace-IsExclusive c r' id db.rows alone x, replace-IsChecked c r' id db.rows ok_checks y)
