-- ===== src/Near/Graph/Sort.antt =====
-- receipt.rs: the topological sort of the visited receipts, by their indegrees.
use mathlib.Core.Path.{subst}
use x402_facilitator.Near.Graph.Counts.{
  count, edges, remove, count-append, count-remove, edges-remove,
}
use x402_facilitator.Near.Graph.{Indegrees, get, update, release}
use x402_facilitator.Near.Types.{ExecutionOutcome}
use x402_facilitator.Prelude.{
  ℕ, suc, ◌+◌, ◌-◌, ◌≤◌, ◌≡◌, ap, sym, ◌∙◌, true, none, some, List, [], ◌∷◌, ◌++◌, ◌==◌,
  if◌then◌else◌, arith, inl, inr, Bool-cases, ==→eq, ==_refl, Option-cases,
}

-- The children of a receipt, none if it is not known.
unfoldable pub children_of : List ExecutionOutcome → ℕ → List ℕ
children_of outcomes id = elim (get id outcomes) [ none ↦ [] | some o ↦ o.receipt_ids ]

pub children_of-get :
    (outcomes : List ExecutionOutcome) (u : ℕ) (r : ExecutionOutcome)
    → get u outcomes ≡ some r
    → children_of outcomes u ≡ r.receipt_ids
unfolding children_of
children_of-get outcomes u r e = ground arith

-- The indegrees count the edges of the receipts that are still to be sorted, and of the children of
-- the receipt that is being sorted.
abbrev pub Counted : (ℕ → List ℕ) → List ℕ → List ℕ → Indegrees → Type 0
Counted children cs rem d = (v n : ℕ) → d v ≡ some n → n ≡ count v cs + edges children rem v

-- A receipt with an edge left is still to be sorted, and the roots are, once, with no edge left.
pub record IsSorting (children : ℕ → List ℕ) (cs rem : List ℕ) (d : Indegrees) (roots : List ℕ)
    : Type 0 where
  pub counted : Counted children cs rem d
  pub remaining : (v n : ℕ) → d v ≡ some (suc n) → 1 ≤ count v rem
  pub roots_remain : (v : ℕ) → count v roots ≤ count v rem
  pub roots_free : (v : ℕ) → 1 ≤ count v roots → d v ≡ some 0
  pub once : (v : ℕ) → count v rem ≤ 1

pushed_remain :
    (v c n : ℕ) (rem roots : List ℕ)
    → count c roots ≡ 0
    → 1 ≤ count c rem
    → count v roots ≤ count v rem
    → count v (if n - 1 == 0 then roots ++ c ∷ [] else roots) ≤ count v rem
unfolding count
pushed_remain v c n rem roots free here le = elim (Bool-cases (v == c)) [
  | inl same ↦
      let e = ==→eq v c same in
      let f : count v roots ≡ 0 = rw e free in
      let k : 1 ≤ count v rem = rw e here in ground (arith, count-append v roots (c ∷ []))
  | inr other ↦ ground (arith, count-append v roots (c ∷ []))
]

pushed_free :
    (v c n : ℕ) (roots : List ℕ) (d : Indegrees)
    → (v == c) ≡ true
    → count c roots ≡ 0
    → 1 ≤ count v (if n - 1 == 0 then roots ++ c ∷ [] else roots)
    → update d c (n - 1) v ≡ some 0
unfolding count
pushed_free v c n roots d same free h =
    let f : count v roots ≡ 0 = rw (==→eq v c same) free in
    ground (arith, count-append v roots (c ∷ []))

module _ (children : ℕ → List ℕ) where
  IsSorting-skip :
      (c : ℕ) (cs rem : List ℕ) (d : Indegrees) (roots : List ℕ)
      → IsSorting children (c ∷ cs) rem d roots
      → d c ≡ none
      → IsSorting children cs rem d roots
  unfolding count
  IsSorting-skip c cs rem d roots s e = record {
    counted = λ v n h. elim (Bool-cases (v == c)) [
      | inl same ↦ let e' : d v ≡ none = ap d (==→eq v c same) ∙ e in absurd (ground arith)
      | inr other ↦ ground (arith, s.counted v n)
    ];
    remaining = s.remaining;
    roots_remain = s.roots_remain;
    roots_free = s.roots_free;
    once = s.once;
  }

  -- One child loses an edge; it is a root if that was the last.
  IsSorting-child :
      (c n : ℕ) (cs rem : List ℕ) (d : Indegrees) (roots : List ℕ)
      → IsSorting children (c ∷ cs) rem d roots
      → d c ≡ some n
      → IsSorting children cs rem
          (update d c (n - 1))
          (if n - 1 == 0 then roots ++ c ∷ [] else roots)
  unfolding count
  IsSorting-child c n cs rem d roots s e =
      let positive : 1 ≤ n = ground (arith, s.counted c n e, ==_refl c) in
      let here : 1 ≤ count c rem = ground (arith, s.remaining c (n - 1)) in
      let free : count c roots ≡ 0 = ground (arith, s.roots_free c) in
      record {
        counted = λ v m h. elim (Bool-cases (v == c)) [
          | inl same ↦
              let e' = ==→eq v c same in
              let k = s.counted c n e in
              subst (λ x. m ≡ count x cs + edges children rem x) (sym (==→eq v c same))
                (ground (arith, ==_refl c))
          | inr other ↦ ground (arith, s.counted v m)
        ];
        remaining = λ v m h. elim (Bool-cases (v == c)) [
          | inl same ↦ rw (==→eq v c same) here
          | inr other ↦ ground (arith, s.remaining v m)
        ];
        roots_remain = λ v. pushed_remain v c n rem roots free here (s.roots_remain v);
        roots_free = λ v h. elim (Bool-cases (v == c)) [
          | inl same ↦ pushed_free v c n roots d same free h
          | inr other ↦ ground (arith, s.roots_free v, count-append v roots (c ∷ []))
        ];
        once = s.once;
      }

  pub release-IsSorting :
      (cs rem : List ℕ) (d : Indegrees) (roots : List ℕ)
      → IsSorting children cs rem d roots
      → IsSorting children [] rem (release cs d roots).0 (release cs d roots).1
  unfolding release
  release-IsSorting [] rem d roots s = s
  release-IsSorting (c ∷ cs) rem d roots s = elim (Option-cases (d c)) [
    | inl e ↦
        rw (e, release) (release-IsSorting cs rem d roots (IsSorting-skip c cs rem d roots s e))
    | inr (n, e) ↦
        rw (e, release)
          (release-IsSorting cs rem (update d c (n - 1))
            (if n - 1 == 0 then roots ++ c ∷ [] else roots)
            (IsSorting-child c n cs rem d roots s e))
  ]

  -- The first root leaves the queue, and its children are about to lose an edge.
  pub IsSorting-pop :
      (u : ℕ) (rem : List ℕ) (d : Indegrees) (roots : List ℕ)
      → IsSorting children [] rem d (u ∷ roots)
      → (1 ≤ count u rem) × IsSorting children (children u) (remove u rem) d roots
  unfolding count
  IsSorting-pop u rem d roots s =
      let here : 1 ≤ count u rem = ground (arith, s.roots_remain u, ==_refl u) in
      let free : d u ≡ some 0 = s.roots_free u (ground (arith, ==_refl u)) in
      (
        here,
        record {
          counted = λ v n h. omega (arith, s.counted v n h, edges-remove children v u rem here);
          remaining = λ v n h. elim (Bool-cases (v == u)) [
            | inl same ↦
                let e : d v ≡ some 0 = ap d (==→eq v u same) ∙ free in absurd (ground arith)
            | inr other ↦ ground (arith, s.remaining v n, count-remove v u rem here)
          ];
          roots_remain = λ v. ground (arith, s.roots_remain v, count-remove v u rem here);
          roots_free = λ v h. ground (arith, s.roots_free v);
          once = λ v. ground (arith, s.once v, count-remove v u rem here);
        },
      )
