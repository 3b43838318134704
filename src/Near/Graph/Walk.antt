-- ===== src/Near/Graph/Walk.antt =====
-- receipt.rs: the walk over the receipts that the delegate receipt leads to.
use mathlib.Core.Path.{subst}
use x402_facilitator.Near.Graph.Counts.{count, count_once, count-nil}
use x402_facilitator.Near.Graph.{
  mem, visited_receipt, get, visit_check, execution_failure, is_unknown, walk, total_children,
  walk_fuel,
}
use x402_facilitator.Near.Types.{ExecutionOutcome}
use x402_facilitator.Prelude.{
  ℕ, zero, suc, ◌+◌, ◌≤◌, ◌<◌, ◌≡◌, ◌≢◌, refl, ap, sym, ◌∙◌, true, false, ◌||◌, none, some, List,
  [], ◌∷◌, ◌++◌, ◌==◌, if◌then◌else◌, arith, inl, inr, ok, and_then, length, Bool-cases,
  Option-cases, ==→eq, Outcome-cases, ==_refl, length-append,
}

-- The receipts that a transaction's receipt leads to.
pub data Reaches (outcomes : List ExecutionOutcome) (root : ℕ) : ℕ → Type 0 where
  here : Reaches outcomes root root
  child :
      {u v : ℕ} (o : ExecutionOutcome)
      → Reaches outcomes root u
      → get u outcomes ≡ some o
      → mem v o.receipt_ids ≡ true
      → Reaches outcomes root v

-- A receipt that the walk accepts: known, not failed, and with a known status unless it is the token
-- receipt.
pub record IsAccepted (outcomes : List ExecutionOutcome) (token_id id : ℕ) : Type 0 where
  pub receipt : ExecutionOutcome
  pub found : get id outcomes ≡ some receipt
  pub not_failed : execution_failure receipt.status ≡ none
  pub not_unknown : receipt.id ≢ token_id → is_unknown receipt.status ≡ false

pub mem-append : (a : ℕ) (xs ys : List ℕ) → mem a (xs ++ ys) ≡ (mem a xs || mem a ys)
mem-append a [] ys = refl
mem-append a (x ∷ xs) ys = ground (arith, mem-append a xs ys)

checked-IsAccepted :
    (outcomes : List ExecutionOutcome) (token_id id : ℕ) (g o : ExecutionOutcome)
    → get id outcomes ≡ some g
    → and_then (visit_check token_id g) (λ _. ok g) ≡ ok o
    → (IsAccepted outcomes token_id id) × (g ≡ o)
checked-IsAccepted outcomes token_id id g o e h = (
  record { receipt = g; found = e; not_failed = ground arith; not_unknown = λ n. ground arith },
  ground arith,
)

visited_receipt-IsAccepted :
    (outcomes : List ExecutionOutcome) (token_id id : ℕ) (o : ExecutionOutcome)
    → visited_receipt outcomes token_id id ≡ ok o
    → (IsAccepted outcomes token_id id) × (get id outcomes ≡ some o)
unfolding visited_receipt
visited_receipt-IsAccepted outcomes token_id id o h = elim (Option-cases (get id outcomes)) [
  | inl e ↦ absurd (ground arith)
  | inr (g, e) ↦
      let (a, same) = checked-IsAccepted outcomes token_id id g o e (ground arith) in
      (a, e ∙ ap some same)
]

-- What holds of the visited receipts while the queue is not empty.
record IsWalking (outcomes : List ExecutionOutcome) (token_id : ℕ) (queue visited : List ℕ)
    : Type 0 where
  accepted : (v : ℕ) → mem v visited ≡ true → IsAccepted outcomes token_id v
  closed :
      (u v : ℕ) (o : ExecutionOutcome)
      → mem u visited ≡ true
      → get u outcomes ≡ some o
      → mem v o.receipt_ids ≡ true
      → (mem v visited || mem v queue) ≡ true
  once : (v : ℕ) → count v visited ≤ 1

-- What holds of them at the end.
pub record IsWalked (outcomes : List ExecutionOutcome) (token_id : ℕ) (visited : List ℕ)
    : Type 0 where
  pub accepted : (v : ℕ) → mem v visited ≡ true → IsAccepted outcomes token_id v
  pub closed :
      (u v : ℕ) (o : ExecutionOutcome)
      → mem u visited ≡ true
      → get u outcomes ≡ some o
      → mem v o.receipt_ids ≡ true
      → mem v visited ≡ true
  pub once : (v : ℕ) → count v visited ≤ 1

still : (v id : ℕ) (xs : List ℕ) → mem id xs ≡ true → (v == id) ≡ true → mem v xs ≡ true
still v id xs m e = rw (==→eq v id e) m

module _ (outcomes : List ExecutionOutcome) (token_id : ℕ) where
  IsWalking-skip :
      (id : ℕ) (queue visited : List ℕ)
      → IsWalking outcomes token_id (id ∷ queue) visited
      → mem id visited ≡ true
      → IsWalking outcomes token_id queue visited
  IsWalking-skip id queue visited w m = record {
    accepted = w.accepted;
    closed =
        λ u v o a b c. ground (arith, w.closed u v o a b c, ==→eq v id, ap (λ x. mem x visited));
    once = w.once;
  }

  IsWalking-visit :
      (id : ℕ) (queue visited : List ℕ) (r : ExecutionOutcome)
      → IsWalking outcomes token_id (id ∷ queue) visited
      → mem id visited ≡ false
      → visited_receipt outcomes token_id id ≡ ok r
      → IsWalking outcomes token_id (queue ++ r.receipt_ids) (id ∷ visited)
  IsWalking-visit id queue visited r w m h =
      let (acc, found) = visited_receipt-IsAccepted outcomes token_id id r h in
      record {
        accepted = λ v e. elim (Bool-cases (v == id)) [
          | inl same ↦ subst (λ x. IsAccepted outcomes token_id x) (sym (==→eq v id same)) acc
          | inr other ↦ w.accepted v (ground arith)
        ];
        closed = λ u v o a b c. elim (Bool-cases (u == id)) [
          | inl same ↦
              let e = ap (λ x. get x outcomes) (==→eq u id same) in
              let e' : o ≡ r = cc in
              let in_children = rw e' at c in ground (arith, mem-append v queue r.receipt_ids)
          | inr other ↦ ground (
            arith,
            w.closed u v o (ground arith) b c,
            ==→eq v id,
            mem-append v queue r.receipt_ids,
          )
        ];
        once = λ v. count_once v id visited m (w.once v);
      }

  walk_rule :
      (fuel : ℕ) (queue visited result : List ℕ)
      → IsWalking outcomes token_id queue visited
      → walk outcomes token_id fuel queue visited ≡ some (ok result)
      → (IsWalked outcomes token_id result)
        × ((v : ℕ) → (mem v visited || mem v queue) ≡ true → mem v result ≡ true)
  unfolding walk
  walk_rule zero queue visited result w h = absurd (ground arith)
  walk_rule (suc fuel) [] visited result w h =
      let e : visited ≡ result = cc in
      subst
        (λ x.
          (IsWalked outcomes token_id x)
          × ((v : ℕ) → (mem v visited || false) ≡ true → mem v x ≡ true))
        e
        (
          record {
            accepted = w.accepted;
            closed = λ u v o a b c. ground (arith, w.closed u v o a b c);
            once = w.once;
          },
          λ v m. ground arith,
        )
  walk_rule (suc fuel) (id ∷ queue) visited result w h = elim (Bool-cases (mem id visited)) [
    | inl seen ↦
        let (a, b) =
          walk_rule fuel queue visited result (IsWalking-skip id queue visited w seen)
            (rw (seen, walk) at h) in
        (a, λ v m. ground (arith, b v, ==→eq v id, still v id visited))
    | inr new ↦ elim (Outcome-cases (visited_receipt outcomes token_id id)) [
      | inl (e, failed) ↦ absurd (ground arith)
      | inr (r, good) ↦
          let (a, b) =
            walk_rule fuel (queue ++ r.receipt_ids) (id ∷ visited) result
              (IsWalking-visit id queue visited r w new good) (rw (new, good, walk) at h) in
          (a, λ v m. ground (arith, b v, mem-append v queue r.receipt_ids))
    ]
  ]

-- Whatever the delegate receipt leads to has been visited.
pub Reaches-mem :
    {outcomes : List ExecutionOutcome} {root : ℕ} (token_id : ℕ) (visited : List ℕ)
    → IsWalked outcomes token_id visited
    → mem root visited ≡ true
    → {v : ℕ} → Reaches outcomes root v
    → mem v visited ≡ true
Reaches-mem token_id visited w m here = m
Reaches-mem token_id visited w m (child {u} {v} o r e c) =
    w.closed u v o (Reaches-mem token_id visited w m r) e c

pub walk-IsWalked :
    (outcomes : List ExecutionOutcome) (token_id fuel root : ℕ) (visited : List ℕ)
    → walk outcomes token_id fuel (root ∷ []) [] ≡ some (ok visited)
    → (IsWalked outcomes token_id visited) × (mem root visited ≡ true)
walk-IsWalked outcomes token_id fuel root visited h =
    let (w, m) =
      walk_rule outcomes token_id fuel (root ∷ []) [] visited
        (record {
          accepted = λ v a. absurd (ground arith);
          closed = λ u v o a b c. absurd (ground arith);
          once = λ v. count-nil v;
        })
        h in
    (w, m root (rw (==_refl root)))

-- The children of the receipts that are not visited yet.
pub unvisited : List ExecutionOutcome → List ℕ → ℕ
unvisited [] visited = 0
unvisited (o ∷ os) visited =
    (if mem o.id visited then 0 else length o.receipt_ids) + unvisited os visited

unvisited_mono :
    (os : List ExecutionOutcome) (id : ℕ) (visited : List ℕ)
    → unvisited os (id ∷ visited) ≤ unvisited os visited
unfolding unvisited
unvisited_mono [] id visited = omega arith
unvisited_mono (o ∷ os) id visited = ground (arith, unvisited_mono os id visited)

unvisited-visit :
    (os : List ExecutionOutcome) (id : ℕ) (visited : List ℕ) (r : ExecutionOutcome)
    → mem id visited ≡ false
    → get id os ≡ some r
    → unvisited os (id ∷ visited) + length r.receipt_ids ≤ unvisited os visited
unfolding unvisited get
unvisited-visit [] id visited r m h = absurd (ground arith)
unvisited-visit (o ∷ os) id visited r m h = elim (Bool-cases (o.id == id)) [
  | inl same ↦
      let e : o ≡ r = ground arith in
      let new : mem o.id visited ≡ false = rw (==→eq o.id id same) m in
      let fewer = unvisited_mono os id visited in rw (new, same, ← e) (omega arith)
  | inr other ↦ ground (arith, unvisited-visit os id visited r)
]

pub walk_returns :
    (outcomes : List ExecutionOutcome) (token_id fuel : ℕ) (queue visited : List ℕ)
    → length queue + unvisited outcomes visited < fuel
    → walk outcomes token_id fuel queue visited ≢ none
unfolding walk
walk_returns outcomes token_id zero queue visited l h = absurd (omega arith)
walk_returns outcomes token_id (suc fuel) [] visited l h = absurd (ground arith)
walk_returns outcomes token_id (suc fuel) (id ∷ queue) visited l h =
    elim (Bool-cases (mem id visited)) [
      | inl seen ↦
          walk_returns outcomes token_id fuel queue visited (omega arith) (rw (seen, walk) at h)
      | inr new ↦ elim (Outcome-cases (visited_receipt outcomes token_id id)) [
        | inl (e, failed) ↦ absurd (ground arith)
        | inr (r, good) ↦
            walk_returns outcomes token_id fuel (queue ++ r.receipt_ids) (id ∷ visited)
              (omega (
                arith,
                length-append queue r.receipt_ids,
                unvisited-visit outcomes id visited r new
                    ((visited_receipt-IsAccepted outcomes token_id id r good).1),
              ))
              (rw (new, good, walk) at h)
      ]
    ]

unvisited-nil : (os : List ExecutionOutcome) → unvisited os [] ≤ total_children os
unfolding unvisited total_children
unvisited-nil [] = omega arith
unvisited-nil (o ∷ os) = omega (arith, unvisited-nil os)

-- The walk from one receipt ends within its fuel.
pub walk_from_returns :
    (outcomes : List ExecutionOutcome) (token_id root : ℕ)
    → walk outcomes token_id (walk_fuel outcomes) (root ∷ []) [] ≢ none
unfolding walk_fuel
walk_from_returns outcomes token_id root =
    walk_returns outcomes token_id (walk_fuel outcomes) (root ∷ []) []
      (omega (arith, unvisited-nil outcomes))
