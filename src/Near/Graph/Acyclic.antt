-- ===== src/Near/Graph/Acyclic.antt =====
-- receipt.rs: the topological sort ends, and leaves every cycle unsorted.
use x402_facilitator.Near.Graph.Indegrees.{IsSorting-start}
use x402_facilitator.Near.Graph.Sort.{
  IsSorting, children_of, IsSorting-pop, release-IsSorting, children_of-get,
}
use x402_facilitator.Near.Graph.{
  Indegrees, sort, get, release, is_root, count_edges, Option, check_acyclic, zero_indegrees,
  counts_agree, err,
}
use x402_facilitator.Near.Types.{ExecutionOutcome, Validated}
use x402_facilitator.Near.Graph.Counts.{count, remove, count-remove, length-remove, edges-count}
use x402_facilitator.Prelude.{
  ℕ, zero, suc, ◌+◌, ◌≤◌, ◌<◌, ◌≡◌, ◌≢◌, ap, ◌∙◌, none, some, List, [], ◌∷◌, ◌==◌, arith, inl, inr,
  ok, length, Bool-cases, Option-cases, ==_refl, ==→eq, filter, Outcome-cases, refl,
}

-- Receipts each of which another of them leads to.
pub record IsCycle (children : ℕ → List ℕ) (cycle : List ℕ) : Type 0 where
  pub start : ℕ
  pub starts : 1 ≤ count start cycle
  pub before : (v : ℕ) → 1 ≤ count v cycle → ℕ
  pub before_cycle : (v : ℕ) (h : 1 ≤ count v cycle) → 1 ≤ count (before v h) cycle
  pub edge : (v : ℕ) (h : 1 ≤ count v cycle) → 1 ≤ count v (children (before v h))

module _ (outcomes : List ExecutionOutcome) where
  abbrev pub Sorting : List ℕ → Indegrees → List ℕ → Type 0
  Sorting rem d roots = IsSorting (children_of outcomes) [] rem d roots

  -- A root is on no cycle of receipts that are still to be sorted.
  outside :
      (u v : ℕ) (rem : List ℕ) (d : Indegrees) (roots cycle : List ℕ)
      → Sorting rem d (u ∷ roots)
      → IsCycle (children_of outcomes) cycle
      → ((v : ℕ) → 1 ≤ count v cycle → 1 ≤ count v rem)
      → 1 ≤ count v cycle
      → 1 ≤ count u rem
      → 1 ≤ count v (remove u rem)
  unfolding count
  outside u v rem d roots cycle s c inside m here = elim (Bool-cases (v == u)) [
    | inl same ↦
        let p = c.before v m in
        let left = edges-count (children_of outcomes) p v rem (inside p (c.before_cycle v m)) in
        let free : d u ≡ some 0 = s.roots_free u (ground (arith, ==_refl u)) in
        let k = s.counted v 0 (ap d (==→eq v u same) ∙ free) in
        absurd (omega (arith, c.edge v m, left, k))
    | inr other ↦ ground (arith, inside v m, count-remove v u rem here)
  ]

  pub sort_returns :
      (fuel : ℕ) (rem : List ℕ) (d : Indegrees) (roots : List ℕ) (sorted : ℕ)
      → Sorting rem d roots
      → length rem < fuel
      → sort outcomes fuel d roots sorted ≢ none
  unfolding sort children_of
  sort_returns zero rem d roots sorted s l h = absurd (omega arith)
  sort_returns (suc fuel) rem d [] sorted s l h = absurd (ground arith)
  sort_returns (suc fuel) rem d (u ∷ roots) sorted s l h = elim (Option-cases (get u outcomes)) [
    | inl e ↦ absurd (ground (arith, rw (e, sort) at h))
    | inr (r, e) ↦
        let (here, popped) = IsSorting-pop (children_of outcomes) u rem d roots s in
        let same = children_of-get outcomes u r e in
        let next =
          release-IsSorting (children_of outcomes) r.receipt_ids (remove u rem) d roots
            (rw same at popped) in
        sort_returns fuel (remove u rem) (release r.receipt_ids d roots).0
          (release r.receipt_ids d roots).1 (sorted + 1) next
          (omega (arith, length-remove u rem here)) (rw (e, sort) at h)
  ]

  -- A cycle is never sorted: each of its receipts has an edge left.
  pub sort_acyclic :
      (fuel : ℕ) (rem : List ℕ) (d : Indegrees) (roots : List ℕ) (sorted total : ℕ) (cycle : List ℕ)
      → Sorting rem d roots
      → IsCycle (children_of outcomes) cycle
      → ((v : ℕ) → 1 ≤ count v cycle → 1 ≤ count v rem)
      → sort outcomes fuel d roots sorted ≡ some (ok total)
      → total < sorted + length rem
  unfolding sort children_of
  sort_acyclic zero rem d roots sorted total cycle s c inside h = absurd (ground arith)
  sort_acyclic (suc fuel) rem d [] sorted total cycle s c inside h =
      ground (arith, length-remove c.start rem (inside c.start c.starts))
  sort_acyclic (suc fuel) rem d (u ∷ roots) sorted total cycle s c inside h =
      elim (Option-cases (get u outcomes)) [
        | inl e ↦ absurd (ground (arith, rw (e, sort) at h))
        | inr (r, e) ↦
            let (here, popped) = IsSorting-pop (children_of outcomes) u rem d roots s in
            let same = children_of-get outcomes u r e in
            let next =
              release-IsSorting (children_of outcomes) r.receipt_ids (remove u rem) d roots
                (rw same at popped) in
            let less =
              sort_acyclic fuel (remove u rem) (release r.receipt_ids d roots).0
                (release r.receipt_ids d roots).1 (sorted + 1) total cycle next c
                (λ v m. outside u v rem d roots cycle s c inside m here) (rw (e, sort) at h) in
            omega (arith, length-remove u rem here, less)
      ]

counts_agree-none : (o : Option (Validated ℕ)) (n : ℕ) → counts_agree o n ≡ none → o ≡ none
counts_agree-none none n h = refl
counts_agree-none (some (err e)) n h = absurd (ground arith)
counts_agree-none (some (ok s)) n h = absurd (ground arith)

counts_agree-ok :
    (o : Option (Validated ℕ)) (n : ℕ) → counts_agree o n ≡ some (ok tt) → o ≡ some (ok n)
counts_agree-ok none n h = absurd (ground arith)
counts_agree-ok (some (err e)) n h = absurd (ground arith)
counts_agree-ok (some (ok s)) n h = ground arith

module _ (outcomes : List ExecutionOutcome) (visited : List ℕ) where
  -- The sort always ends.
  pub check_acyclic_returns :
      ((v : ℕ) → count v visited ≤ 1) → check_acyclic outcomes visited ≢ none
  unfolding check_acyclic
  check_acyclic_returns once h =
      elim (Outcome-cases (count_edges outcomes visited (zero_indegrees visited))) [
        | inl (e, failed) ↦ absurd (ground (arith, rw (failed, check_acyclic) at h))
        | inr (d, good) ↦
            sort_returns outcomes (length visited + 1) visited d (filter (is_root d) visited) 0
              (IsSorting-start outcomes visited d once good) (omega arith)
              (counts_agree-none _ _ (rw (good, check_acyclic) at h))
      ]

  -- A graph that passes has no cycle among the visited receipts.
  pub check_acyclic_sound :
      (cycle : List ℕ)
      → ((v : ℕ) → count v visited ≤ 1)
      → check_acyclic outcomes visited ≡ some (ok tt)
      → ((v : ℕ) → 1 ≤ count v cycle → 1 ≤ count v visited)
      → ¬ (IsCycle (children_of outcomes) cycle)
  unfolding check_acyclic
  check_acyclic_sound cycle once h inside c =
      elim (Outcome-cases (count_edges outcomes visited (zero_indegrees visited))) [
        | inl (e, failed) ↦ absurd (ground (arith, rw (failed, check_acyclic) at h))
        | inr (d, good) ↦ absurd (
            omega (
              arith,
              sort_acyclic outcomes (length visited + 1) visited d (filter (is_root d) visited) 0
                  (length visited) cycle (IsSorting-start outcomes visited d once good) c inside
                  (counts_agree-ok _ _ (rw (good, check_acyclic) at h)),
            ))
      ]
