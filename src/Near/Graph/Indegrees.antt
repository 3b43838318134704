-- ===== src/Near/Graph/Indegrees.antt =====
-- receipt.rs: the indegrees with which the topological sort starts.
use x402_facilitator.Near.Graph.Sort.{children_of, IsSorting, children_of-get}
use x402_facilitator.Near.Types.{ExecutionOutcome}
use x402_facilitator.Near.Graph.{
  count_children, count_edges, is_root, Indegrees, zero_indegrees, update, get,
}
use x402_facilitator.Prelude.{
  ℕ, ◌+◌, ◌≤◌, ◌≡◌, refl, ap, sym, ◌∙◌, Bool, true, Option, none, some, List, [], ◌∷◌, ◌==◌,
  if◌then◌else◌, arith, inl, inr, ok, filter, Bool-cases, Option-cases, ==→eq,
}
use x402_facilitator.Near.Graph.Counts.{count, edges, mem→count}

-- An indegree with further edges counted.
abbrev plus : Option ℕ → ℕ → Option ℕ
plus none k = none
plus (some n) k = some (n + k)

count_children_lem :
    (cs : List ℕ) (d : Indegrees) (v : ℕ) → count_children cs d v ≡ plus (d v) (count v cs)
unfolding count_children count
count_children_lem [] d v = ground (arith, Option-cases (d v))
count_children_lem (c ∷ cs) d v = elim (Option-cases (d c)) [
  | inl e ↦
      rw (e, count_children)
        (count_children_lem cs d v ∙ skip (d v) c v (count v cs) (λ same. ap d same ∙ e))
  | inr (n, e) ↦
      rw (e, count_children)
        (count_children_lem cs (update d c (n + 1)) v ∙ added c v n (count v cs) d e)
]
  where
    skip :
        (o : Option ℕ) (c v k : ℕ)
        → (v ≡ c → o ≡ none)
        → plus o k ≡ plus o ((if v == c then 1 else 0) + k)
    skip none c v k f = refl
    skip (some n) c v k f = elim (Bool-cases (v == c)) [
      | inl same ↦ absurd (ground (arith, f (==→eq v c same)))
      | inr other ↦ ground arith
    ]

    added :
        (c v n k : ℕ) (d : Indegrees)
        → d c ≡ some n
        → plus (update d c (n + 1) v) k ≡ plus (d v) ((if v == c then 1 else 0) + k)
    added c v n k d e = elim (Bool-cases (v == c)) [
      | inl same ↦ let e' : d v ≡ some n = ap d (==→eq v c same) ∙ e in rw (same, e') (ground arith)
      | inr other ↦ rw other (ap (λ x. plus (d v) x) (omega arith))
    ]

plus_assoc : (o : Option ℕ) (k m : ℕ) → plus (plus o k) m ≡ plus o (k + m)
plus_assoc none k m = refl
plus_assoc (some n) k m = ground arith

count_edges_lem :
    (outcomes : List ExecutionOutcome) (ids : List ℕ) (d d' : Indegrees) (v : ℕ)
    → count_edges outcomes ids d ≡ ok d'
    → d' v ≡ plus (d v) (edges (children_of outcomes) ids v)
unfolding count_edges edges
count_edges_lem outcomes [] d d' v h =
    let e : d ≡ d' = cc in rw (← e) (ground (arith, Option-cases (d v)))
count_edges_lem outcomes (id ∷ ids) d d' v h = elim (Option-cases (get id outcomes)) [
  | inl e ↦ absurd (ground (arith, rw (e, count_edges) at h))
  | inr (r, e) ↦
      let rest =
        count_edges_lem outcomes ids (count_children r.receipt_ids d) d' v
          (rw (e, count_edges) at h) in
      rest
      ∙ ap (λ x. plus x (edges (children_of outcomes) ids v)) (count_children_lem r.receipt_ids d v)
      ∙ plus_assoc (d v) (count v r.receipt_ids) (edges (children_of outcomes) ids v)
      ∙ ap (λ x. plus (d v) (count v x + edges (children_of outcomes) ids v))
          (sym (children_of-get outcomes id r e))
]

count-filter : (p : ℕ → Bool) (v : ℕ) (xs : List ℕ) → count v (filter p xs) ≤ count v xs
unfolding count
count-filter p v [] = omega arith
count-filter p v (x ∷ xs) = ground (arith, count-filter p v xs)

filter-holds : (p : ℕ → Bool) (v : ℕ) (xs : List ℕ) → 1 ≤ count v (filter p xs) → p v ≡ true
unfolding count
filter-holds p v [] h = absurd (omega arith)
filter-holds p v (x ∷ xs) h = elim (Bool-cases (p x)) [
  | inl e ↦ elim (Bool-cases (v == x)) [
    | inl same ↦ ap p (==→eq v x same) ∙ e
    | inr other ↦ filter-holds p v xs (ground arith)
  ]
  | inr e ↦ filter-holds p v xs (ground arith)
]

module _ (outcomes : List ExecutionOutcome) (visited : List ℕ) where
  pub IsSorting-start :
      (d : Indegrees)
      → ((v : ℕ) → count v visited ≤ 1)
      → count_edges outcomes visited (zero_indegrees visited) ≡ ok d
      → IsSorting (children_of outcomes) [] visited d (filter (is_root d) visited)
  unfolding count is_root
  IsSorting-start d once h =
      let total = λ (v : ℕ). count_edges_lem outcomes visited (zero_indegrees visited) d v h in
      record {
        counted = λ v n e. ground (arith, total v);
        remaining = λ v n e. ground (arith, total v, mem→count v visited);
        roots_remain = λ v. count-filter (is_root d) v visited;
        roots_free = λ v k. ground (arith, filter-holds (is_root d) v visited k);
        once = once;
      }
