-- ===== src/Near/Graph/Indexed.antt =====
-- receipt.rs: the index that `by_id` builds holds the outcomes that it was given.
use x402_facilitator.Near.Types.{ExecutionOutcome}
use x402_facilitator.Near.Graph.{by_id, index_from, get}
use x402_facilitator.Prelude.{
  ℕ, ◌≡◌, refl, true, false, Option, none, some, List, [], ◌∷◌, ◌==◌, arith, inl, inr, ok, is_some,
  Bool-cases, Option-cases, ==→eq, ==_refl,
}

-- A receipt that is indexed already is not met again.
indexed_once :
    (indexed os m : List ExecutionOutcome) (v : ℕ)
    → index_from indexed os ≡ ok m
    → is_some (get v indexed) ≡ true
    → get v os ≡ none
unfolding index_from get
indexed_once indexed [] m v h s = refl
indexed_once indexed (o ∷ os) m v h s = elim (Bool-cases (is_some (get o.id indexed))) [
  | inl e ↦ absurd (ground arith)
  | inr e ↦ elim (Bool-cases (o.id == v)) [
    | inl same ↦
        let e' : is_some (get v indexed) ≡ false = rw (← ==→eq o.id v same) e in
        absurd (ground arith)
    | inr other ↦ ground (arith, indexed_once (o ∷ indexed) os m v)
  ]
]

abbrev or_else : Option ExecutionOutcome → Option ExecutionOutcome → Option ExecutionOutcome
or_else none d = d
or_else (some o) d = some o

index_from-get :
    (indexed os m : List ExecutionOutcome) (v : ℕ)
    → index_from indexed os ≡ ok m
    → get v m ≡ or_else (get v os) (get v indexed)
unfolding index_from get
index_from-get indexed [] m v h = let e : indexed ≡ m = ground arith in rw e refl
index_from-get indexed (o ∷ os) m v h = elim (Bool-cases (is_some (get o.id indexed))) [
  | inl e ↦ absurd (ground arith)
  | inr e ↦
      let rest : index_from (o ∷ indexed) os ≡ ok m = ground arith in
      elim (Bool-cases (o.id == v)) [
        | inl same ↦
            ground
              (arith, index_from-get (o ∷ indexed) os m v, indexed_once (o ∷ indexed) os m v rest)
        | inr other ↦ ground (arith, index_from-get (o ∷ indexed) os m v)
      ]
]

-- A lookup in the index is a lookup in the outcomes.
pub by_id-get : (os m : List ExecutionOutcome) (v : ℕ) → by_id os ≡ ok m → get v m ≡ get v os
unfolding by_id get
by_id-get os m v h = ground (arith, index_from-get [] os m v h, Option-cases (get v os))

-- No two outcomes have one id.
pub data HasDistinctIds : List ExecutionOutcome → Type 0 where
  nil : HasDistinctIds []
  cons :
      (o : ExecutionOutcome) (os : List ExecutionOutcome)
      → get o.id os ≡ none
      → HasDistinctIds os
      → HasDistinctIds (o ∷ os)

index_from-HasDistinctIds :
    (indexed os m : List ExecutionOutcome) → index_from indexed os ≡ ok m → HasDistinctIds os
unfolding index_from get
index_from-HasDistinctIds indexed [] m h = HasDistinctIds.nil
index_from-HasDistinctIds indexed (o ∷ os) m h = elim (Bool-cases (is_some (get o.id indexed))) [
  | inl e ↦ absurd (ground arith)
  | inr e ↦
      let rest : index_from (o ∷ indexed) os ≡ ok m = ground arith in
      HasDistinctIds.cons o os (indexed_once (o ∷ indexed) os m o.id rest (rw (==_refl o.id) refl))
        (index_from-HasDistinctIds (o ∷ indexed) os m rest)
]

pub by_id-HasDistinctIds : (os m : List ExecutionOutcome) → by_id os ≡ ok m → HasDistinctIds os
unfolding by_id
by_id-HasDistinctIds os m h = index_from-HasDistinctIds [] os m h
