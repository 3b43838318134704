-- ===== src/Journal/Rows.antt =====
-- The rows of the table under the statements of Tables.antt: look-ups, sums over rows, and what a
-- successful statement has tested.
use x402_facilitator.Prelude.{
  ℕ, ◌+◌, ◌≤◌, ◌≡◌, refl, Bool, true, none, some, List, [], ◌∷◌, ◌++◌, arith, ◌==◌, if◌then◌else◌,
  Option-cases, inl, inr,
}
use x402_facilitator.Journal.Types.{Uuid, SettlementRecord}
use x402_facilitator.Journal.Tables.{
  Collation, find_row, replace_row, other_rows, violation, Inserted, insert_row, Updated,
  update_row,
}

pub find_row-id :
    (id : Uuid) (rows : List SettlementRecord) (r : SettlementRecord)
    → find_row id rows ≡ some r
    → r.id ≡ id
unfolding find_row
find_row-id id [] r h = ground arith
find_row-id id (x ∷ rows) r h = ground (arith, find_row-id id rows r)

-- A look-up after a row was replaced by a new version of itself.
pub find_row-replace_row :
    (id j : Uuid) (new : SettlementRecord) (rows : List SettlementRecord) (r : SettlementRecord)
    → find_row id rows ≡ some r
    → new.id ≡ id
    → find_row j (replace_row id new rows) ≡ (if id == j then some new else find_row j rows)
unfolding find_row replace_row
find_row-replace_row id j new [] r h e = ground arith
find_row-replace_row id j new (x ∷ rows) r h e =
    ground (arith, find_row-replace_row id j new rows r)

-- A look-up after a row was added at the end.
pub find_row-append :
    (j : Uuid) (rows : List SettlementRecord) (new : SettlementRecord)
    → find_row j (rows ++ new ∷ [])
      ≡ elim (find_row j rows) [ some r ↦ some r | none ↦ if new.id == j then some new else none ]
unfolding find_row
find_row-append j [] new = refl
find_row-append j (x ∷ rows) new = ground (arith, find_row-append j rows new)

unfoldable pub sum_rows : (SettlementRecord → ℕ) → List SettlementRecord → ℕ
sum_rows w [] = 0
sum_rows w (r ∷ rows) = w r + sum_rows w rows

pub sum_rows-replace_row :
    (w : SettlementRecord → ℕ) (id : Uuid) (new : SettlementRecord) (rows : List SettlementRecord)
    (r : SettlementRecord)
    → find_row id rows ≡ some r
    → sum_rows w (replace_row id new rows) + w r ≡ sum_rows w rows + w new
unfolding find_row replace_row sum_rows
sum_rows-replace_row w id new [] r h = ground arith
sum_rows-replace_row w id new (x ∷ rows) r h = ground (arith, sum_rows-replace_row w id new rows r)

pub sum_rows-append :
    (w : SettlementRecord → ℕ) (rows : List SettlementRecord) (new : SettlementRecord)
    → sum_rows w (rows ++ new ∷ []) ≡ sum_rows w rows + w new
unfolding sum_rows
sum_rows-append w [] new = ground arith
sum_rows-append w (x ∷ rows) new = ground (arith, sum_rows-append w rows new)

pub le-sum_rows :
    (w : SettlementRecord → ℕ) (id : Uuid) (rows : List SettlementRecord) (r : SettlementRecord)
    → find_row id rows ≡ some r
    → w r ≤ sum_rows w rows
unfolding find_row sum_rows
le-sum_rows w id [] r h = ground arith
le-sum_rows w id (x ∷ rows) r h = ground (arith, le-sum_rows w id rows r)

-- An UPDATE that touched a row found it, passed its guard and left no constraint violated.
pub update_row-updated :
    (c : Collation) (id : Uuid) (guard : SettlementRecord → Bool)
    (change : SettlementRecord → SettlementRecord) (rows : List SettlementRecord)
    {rows' : List SettlementRecord}
    → update_row c id guard change rows ≡ Updated.updated rows'
    → (r : SettlementRecord) × (find_row id rows ≡ some r)
      × (guard r ≡ true)
      × (violation c (change r) (other_rows id rows) ≡ none)
      × (rows' ≡ replace_row id (change r) rows)
unfolding update_row
update_row-updated c id guard change rows h = elim (Option-cases (find_row id rows)) [
  | inl e ↦ ground arith
  | inr (r, e) ↦ (r, e, ground arith, ground arith, ground arith)
]

pub insert_row-inserted :
    (c : Collation) (r : SettlementRecord) (rows : List SettlementRecord)
    {rows' : List SettlementRecord}
    → insert_row c r rows ≡ Inserted.inserted rows'
    → (violation c r rows ≡ none) × (rows' ≡ rows ++ r ∷ [])
unfolding insert_row
insert_row-inserted c r rows h = ground arith
